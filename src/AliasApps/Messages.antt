-- ===== src/AliasApps/Messages.antt =====
-- modules/mail/backend/alias_applications.go: from messages to evidence in its order.
use running_tools.Prelude.{
  ℕ, ◌*◌, Bool, true, false, not, ◌&&◌, ◌||◌, Option, none, List, [], ◌∷◌, ◌++◌, map, arith, ◌≡◌,
  refl, ltb, leb, ◌==◌, Option-cases, inl, inr,
}
use running_tools.Prelude.Text.{Text}
use running_tools.Prelude.Clock.{second}
use running_tools.AliasApps.Types.{Kind, Evidence, AppState, Message}
use running_tools.AliasApps.Evidence.{classify, evidence_time, normalize_aliases}
use running_tools.AliasApps.Store.{
  message_before, insert_message, sort_messages, evidence_for, evidence_of, observe_messages,
}
use running_tools.AliasApps.Progress.{in_order, all_from}
use running_tools.AliasApps.Rows.{calm}
use running_tools.AliasApps.Settled.{observe_all-again}

-- A date in seconds, after 1970: evidenceTime takes it as it is.
abbrev pub plain : Message → Bool
plain m = ltb 0 m.date && not (ltb (1000000000000 * second) m.date)

abbrev all_plain : List Message → Bool
all_plain [] = true
all_plain (m ∷ ms) = plain m && all_plain ms

abbrev none_before : Message → List Message → Bool
none_before m [] = true
none_before m (x ∷ xs) = not (message_before x m) && none_before m xs

abbrev sorted : List Message → Bool
sorted [] = true
sorted (m ∷ ms) = none_before m ms && sorted ms

-- The order of sort.Slice is one: it is asymmetric, and its complement is transitive.
message_before_asym : (m n : Message) → message_before m n ≡ true → message_before n m ≡ false
unfolding message_before
message_before_asym m n h = ground arith

none_before-later :
    (m n : Message) (ms : List Message)
    → message_before n m ≡ false
    → none_before n ms ≡ true
    → none_before m ms ≡ true
unfolding message_before
none_before-later m n [] h k = refl
none_before-later m n (x ∷ xs) h k = ground (arith, none_before-later m n xs h)

none_before-insert :
    (m n : Message) (ms : List Message)
    → message_before n m ≡ false
    → none_before m ms ≡ true
    → none_before m (insert_message n ms) ≡ true
unfolding insert_message
none_before-insert m n [] h k = ground arith
none_before-insert m n (x ∷ xs) h k = ground (arith, none_before-insert m n xs h)

insert-sorted :
    (m : Message) (ms : List Message) → sorted ms ≡ true → sorted (insert_message m ms) ≡ true
unfolding insert_message
insert-sorted m [] h = refl
insert-sorted m (n ∷ ns) h = ground (
  arith,
  insert-sorted m ns,
  message_before_asym n m,
  none_before-insert n m ns,
  none_before-later m n ns,
)

sort-sorted : (ms : List Message) → sorted (sort_messages ms) ≡ true
unfolding sort_messages
sort-sorted [] = refl
sort-sorted (m ∷ ms) = insert-sorted m (sort_messages ms) (sort-sorted ms)

insert-plain :
    (m : Message) (ms : List Message)
    → plain m ≡ true
    → all_plain ms ≡ true
    → all_plain (insert_message m ms) ≡ true
unfolding insert_message
insert-plain m [] h k = ground arith
insert-plain m (n ∷ ns) h k = ground (arith, insert-plain m ns h)

sort-plain : (ms : List Message) → all_plain ms ≡ true → all_plain (sort_messages ms) ≡ true
unfolding sort_messages
sort-plain [] h = refl
sort-plain (m ∷ ms) h = ground (arith, sort-plain ms, insert-plain m (sort_messages ms))

module _ (parse : Text → Option Text) (now : ℕ) where
  evidence_time-plain : (m : Message) → plain m ≡ true → evidence_time now m.date ≡ m.date
  unfolding evidence_time
  evidence_time-plain m h = ground arith

  -- The aliases of one message share its time and its uid.
  all_from-aliases :
      (at uid : ℕ) (m : Message) (kind : Kind) (names : List Text) (es : List Evidence)
      → (ltb at (evidence_time now m.date) || at == evidence_time now m.date && leb uid m.uid)
        ≡ true
      → all_from at uid es ≡ true
      → all_from at uid (map (evidence_for now m kind) names ++ es) ≡ true
  all_from-aliases at uid m kind [] es h k = k
  all_from-aliases at uid m kind (a ∷ names) es h k =
      ground (arith, all_from-aliases at uid m kind names es h k)

  in_order-aliases :
      (m : Message) (kind : Kind) (names : List Text) (es : List Evidence)
      → all_from (evidence_time now m.date) m.uid es ≡ true
      → in_order es ≡ true
      → in_order (map (evidence_for now m kind) names ++ es) ≡ true
  in_order-aliases m kind [] es h k = k
  in_order-aliases m kind (a ∷ names) es h k = ground (
    arith,
    in_order-aliases m kind names es h k,
    all_from-aliases (evidence_time now m.date) m.uid m kind names es (ground arith) h,
  )

  all_from-evidence_of :
      (m : Message) (ms : List Message)
      → all_plain ms ≡ true
      → none_before m ms ≡ true
      → all_from m.date m.uid (evidence_of parse now ms) ≡ true
  unfolding evidence_of message_before
  all_from-evidence_of m [] h k = refl
  all_from-evidence_of m (x ∷ xs) h k =
      let rest = all_from-evidence_of m xs (ground arith) (ground arith) in
      elim (Option-cases (classify parse x)) [
        | inl e ↦ ground arith
        | inr (kind, e) ↦ ground (
          arith,
          evidence_time-plain x,
          all_from-aliases m.date m.uid x kind (normalize_aliases x.aliases)
              (evidence_of parse now xs),
        )
      ]

  evidence_of-in_order :
      (ms : List Message)
      → all_plain ms ≡ true
      → sorted ms ≡ true
      → in_order (evidence_of parse now ms) ≡ true
  unfolding evidence_of
  evidence_of-in_order [] h k = refl
  evidence_of-in_order (m ∷ ms) h k =
      let rest = evidence_of-in_order ms (ground arith) (ground arith) in
      elim (Option-cases (classify parse m)) [
        | inl e ↦ ground arith
        | inr (kind, e) ↦ ground (
          arith,
          evidence_time-plain m,
          all_from-evidence_of m ms,
          in_order-aliases m kind (normalize_aliases m.aliases) (evidence_of parse now ms),
        )
      ]

  -- The evidence of messages whose dates are in seconds, in the order of their sort.
  sorted-in_order :
      (ms : List Message)
      → all_plain ms ≡ true
      → in_order (evidence_of parse now (sort_messages ms)) ≡ true
  sorted-in_order ms h = evidence_of-in_order (sort_messages ms) (sort-plain ms h) (sort-sorted ms)

  -- ObserveMessages of the same messages a second time writes nothing and returns nil, where their
  -- dates are in seconds, every statement runs and no other process writes.
  pub observe_messages-again :
      (acc : Text) (ms : List Message) (t : List AppState)
      → all_plain ms ≡ true
      → observe_messages acc parse now calm ms (observe_messages acc parse now calm ms t).0
        ≡ ((observe_messages acc parse now calm ms t).0, none)
  unfolding observe_messages
  observe_messages-again acc ms t h =
      observe_all-again acc (evidence_of parse now (sort_messages ms)) t (sorted-in_order ms h)
