-- ===== src/CreateSchedule/Bounds.antt =====
-- The limits of a configuration, whatever the state file holds, and what Update stores.
use running_tools.Prelude.{
  ℕ, ◌≤◌, ◌≡◌, refl, Bool, true, false, Option, none, some, arith, is_empty, sym, subst,
}
use running_tools.Prelude.Int.{ℤ, pos, negsuc}
use running_tools.Prelude.Text.{Text, text, trim_space}
use running_tools.Prelude.Clock.{Env}
use running_tools.CreateSchedule.Types.{
  Config, default_config, clamp, normalized_create_config, persistent_create_config, Scheduler,
}
use running_tools.CreateSchedule.Service.{load, clamp_option, set_enabled, updated, update}

pub clamp_bounds : (v : ℤ) (lo hi : ℕ) → lo ≤ hi → (lo ≤ clamp v lo hi) × (clamp v lo hi ≤ hi)
unfolding clamp
clamp_bounds (pos n) lo hi h = ground arith
clamp_bounds (negsuc n) lo hi h = ground arith

clamp-eq : (n lo hi : ℕ) → lo ≤ n → n ≤ hi → clamp (pos n) lo hi ≡ n
unfolding clamp
clamp-eq n lo hi h k = ground arith

pub record WellFormed (c : Config) : Type 0 where
  pub batch_low : 1 ≤ c.batch_size
  pub batch_high : c.batch_size ≤ 20
  pub alias_low : 1 ≤ c.alias_interval_seconds
  pub alias_high : c.alias_interval_seconds ≤ 3600
  pub period_low : 60 ≤ c.interval_seconds
  pub period_high : c.interval_seconds ≤ 604800
  pub labelled : is_empty (trim_space c.label) ≡ false

shopping_labelled : is_empty (trim_space (text "shopping")) ≡ false
unfolding trim_space text
shopping_labelled = refl

pub normalized-WellFormed : (c : Config) → WellFormed (normalized_create_config c)
unfolding normalized_create_config
normalized-WellFormed c =
    let b = clamp_bounds (pos c.batch_size) 1 20 (omega arith) in
    let a = clamp_bounds (pos c.alias_interval_seconds) 1 3600 (omega arith) in
    let p = clamp_bounds (pos c.interval_seconds) 60 604800 (omega arith) in
    record {
      batch_low = b.0;
      batch_high = b.1;
      alias_low = a.0;
      alias_high = a.1;
      period_low = p.0;
      period_high = p.1;
      labelled = ground (arith, shopping_labelled);
    }

-- Every configuration that the service works with is within the limits, whatever the file holds.
load-WellFormed : (s : Scheduler) → WellFormed (load s)
unfolding load
load-WellFormed s =
    elim s.file
      as (λ f. WellFormed (elim f [
        | none ↦ normalized_create_config default_config
        | some c ↦ normalized_create_config c
      ])) [ none ↦ normalized-WellFormed default_config | some c ↦ normalized-WellFormed c ]

normalized-eq : (c : Config) → WellFormed c → normalized_create_config c ≡ c
unfolding normalized_create_config
normalized-eq c v = ground (
  arith,
  clamp-eq c.batch_size 1 20,
  clamp-eq c.alias_interval_seconds 1 3600,
  clamp-eq c.interval_seconds 60 604800,
)

persistent-WellFormed : (c : Config) → WellFormed c → WellFormed (persistent_create_config c)
unfolding persistent_create_config
persistent-WellFormed c v = record {
  batch_low = v.batch_low;
  batch_high = v.batch_high;
  alias_low = v.alias_low;
  alias_high = v.alias_high;
  period_low = v.period_low;
  period_high = v.period_high;
  labelled = v.labelled;
}

-- What an update leaves: the switch, the three clamped numbers, the counters and the error.
pub record Stored (en : Option Bool) (b a i : Option ℤ) (old new : Config) : Type 0 where
  pub enabled : new.enabled ≡ elim en [ none ↦ old.enabled | some x ↦ x ]
  pub batch_size : new.batch_size ≡ clamp_option b old.batch_size 1 20
  pub alias_interval : new.alias_interval_seconds ≡ clamp_option a old.alias_interval_seconds 1 3600
  pub interval : new.interval_seconds ≡ clamp_option i old.interval_seconds 60 604800
  pub requested : new.last_batch_requested ≡ old.last_batch_requested
  pub created : new.last_batch_success ≡ old.last_batch_success
  pub error_kept : new.last_error ≡ elim en [ some true ↦ none | _ ↦ old.last_error ]

clamp_option_bounds :
    (o : Option ℤ) (old lo hi : ℕ)
    → lo ≤ hi
    → lo ≤ old
    → old ≤ hi
    → (lo ≤ clamp_option o old lo hi) × (clamp_option o old lo hi ≤ hi)
unfolding clamp_option
clamp_option_bounds none old lo hi h k l = (k, l)
clamp_option_bounds (some v) old lo hi h k l = clamp_bounds v lo hi h

-- Clamping again changes nothing.
clamp_again :
    (o : Option ℤ) (old lo hi : ℕ)
    → lo ≤ hi
    → lo ≤ old
    → old ≤ hi
    → clamp (pos (clamp_option o old lo hi)) lo hi ≡ clamp_option o old lo hi
clamp_again o old lo hi h k l =
    let b = clamp_option_bounds o old lo hi h k l in
    clamp-eq (clamp_option o old lo hi) lo hi b.0 b.1

updated-Stored :
    (now : ℕ) (en : Option Bool) (b a i : Option ℤ) (l n : Option Text) (c : Config)
    → WellFormed c
    → Stored en b a i c (persistent_create_config (updated now en b a i l n c))
unfolding updated set_enabled normalized_create_config persistent_create_config
updated-Stored now none b a i l n c v = record {
  enabled = refl;
  batch_size = clamp_again b c.batch_size 1 20 (omega arith) v.batch_low v.batch_high;
  alias_interval =
      clamp_again a c.alias_interval_seconds 1 3600 (omega arith) v.alias_low v.alias_high;
  interval = clamp_again i c.interval_seconds 60 604800 (omega arith) v.period_low v.period_high;
  requested = refl;
  created = refl;
  error_kept = refl;
}
updated-Stored now (some true) b a i l n c v = record {
  enabled = refl;
  batch_size = clamp_again b c.batch_size 1 20 (omega arith) v.batch_low v.batch_high;
  alias_interval =
      clamp_again a c.alias_interval_seconds 1 3600 (omega arith) v.alias_low v.alias_high;
  interval = clamp_again i c.interval_seconds 60 604800 (omega arith) v.period_low v.period_high;
  requested = refl;
  created = refl;
  error_kept = refl;
}
updated-Stored now (some false) b a i l n c v = record {
  enabled = refl;
  batch_size = clamp_again b c.batch_size 1 20 (omega arith) v.batch_low v.batch_high;
  alias_interval =
      clamp_again a c.alias_interval_seconds 1 3600 (omega arith) v.alias_low v.alias_high;
  interval = clamp_again i c.interval_seconds 60 604800 (omega arith) v.period_low v.period_high;
  requested = refl;
  created = refl;
  error_kept = refl;
}

updated-WellFormed :
    (now : ℕ) (en : Option Bool) (b a i : Option ℤ) (l n : Option Text) (c : Config)
    → WellFormed (updated now en b a i l n c)
unfolding updated
updated-WellFormed now en b a i l n c = normalized-WellFormed _

load-file :
    (c : Config) (s : Scheduler)
    → s.file ≡ some (persistent_create_config c)
    → WellFormed c
    → load s ≡ persistent_create_config c
unfolding load
load-file c s h v = rw h (normalized-eq (persistent_create_config c) (persistent-WellFormed c v))

file-update :
    (e : Env) (en : Option Bool) (b a i : Option ℤ) (l n : Option Text) (s : Scheduler)
    → e.saved ≡ true
    → (update e en b a i l n s).0.file
      ≡ some (persistent_create_config (updated e.now en b a i l n (load s)))
unfolding update
file-update e en b a i l n s h = ground arith

load-update :
    (e : Env) (en : Option Bool) (b a i : Option ℤ) (l n : Option Text) (s : Scheduler)
    → e.saved ≡ true
    → load (update e en b a i l n s).0
      ≡ persistent_create_config (updated e.now en b a i l n (load s))
load-update e en b a i l n s h =
    load-file (updated e.now en b a i l n (load s)) (update e en b a i l n s).0
      (file-update e en b a i l n s h) (updated-WellFormed e.now en b a i l n (load s))

-- An Update whose write succeeds stores the switch and the three numbers that the request gives, the
-- numbers clamped to their limits, and keeps those that it does not give; it keeps the counters of
-- the last batch, and its error but for switching on, which clears it.
pub update-Stored :
    (e : Env) (en : Option Bool) (b a i : Option ℤ) (l n : Option Text) (s : Scheduler)
    → e.saved ≡ true
    → Stored en b a i (load s) (load (update e en b a i l n s).0)
update-Stored e en b a i l n s h =
    subst (Stored en b a i (load s)) (sym (load-update e en b a i l n s h))
      (updated-Stored e.now en b a i l n (load s) (load-WellFormed s))
