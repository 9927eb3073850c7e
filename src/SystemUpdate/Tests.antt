-- ===== src/SystemUpdate/Tests.antt =====
-- The update requests run on small inputs, and the theorems at inputs that meet their hypotheses.
use running_tools.Prelude.{◌*◌, ◌≡◌, refl, true, false, none, some, [], ◌∷◌, arith, ok, err}
use running_tools.Prelude.Clock.{second}
use running_tools.Prelude.Text.{text, text_eq, trim_space}
use running_tools.SystemUpdate.Service.{
  in_progress, not_written, idle, updating, check, update, Status, no_status, StateDir, Service,
  Call, new, active, compared, named_status, status, queued_status, submit, enqueue,
}
use running_tools.SystemUpdate.Requests.{enqueue-excludes, enqueue_recovers}

abbrev server : Service
server = record { version = b'1' ∷ []; revision = b'a' ∷ []; repository_url = [] }

abbrev noon : Call
noon = record {
  now = 4000 * second;
  id = some (b'7' ∷ []);
  status_written = true;
  request_written = true;
  failure_written = true;
}

abbrev later : Call
later = record noon { now = 5000 * second }

abbrev empty_dir : StateDir
empty_dir = record { status = none; check_request = none; update_request = none }

-- A status file that was modified an hour before.
abbrev holding : Status → StateDir
holding s = record empty_dir { status = some (record { content = s; modified = 400 * second }) }

-- After a check that has found revision b, with a space after it.
abbrev checked : StateDir
checked = holding (record no_status { state = idle; latest_revision = some (b'b' ∷ b' ' ∷ []) })

-- A host that hangs.
abbrev hung : StateDir
hung = holding (record no_status { state = updating; updated_at = some (500 * second) })

abbrev first : Status
first = queued_status noon.now server check (b'7' ∷ []) (status noon.now server empty_dir)

accepted : (enqueue noon server check empty_dir).1 ≡ ok first
unfolding enqueue submit status active compared named_status text
accepted = refl

enqueue-excludes_example :
    let d' = (enqueue noon server check empty_dir).0 in
    enqueue later server update d' ≡ (d', err in_progress)
enqueue-excludes_example =
    enqueue-excludes noon later server server check update empty_dir first accepted (omega arith)
      (omega arith)

abbrev second_one : Status
second_one = queued_status noon.now server update (b'7' ∷ []) (status noon.now server checked)

requested : (enqueue noon server update checked).1 ≡ ok second_one
unfolding enqueue submit status active compared named_status text trim_space text_eq
requested = refl

enqueue_recovers_example :
    (s : Status) × ((enqueue noon server check hung).1 ≡ ok s) × (s.request_id ≡ some (b'7' ∷ []))
enqueue_recovers_example =
    enqueue_recovers noon server hung (b'7' ∷ []) refl refl refl refl refl refl refl

abbrev full_disk : Call
full_disk = record noon { request_written = false }

unwritten : (enqueue full_disk server check empty_dir).1 ≡ err not_written
unfolding enqueue submit status active compared named_status text
unwritten = refl

defaults : (new (b' ' ∷ []) [] []).revision ≡ text "dev"
unfolding new trim_space
defaults = refl
