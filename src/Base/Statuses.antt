-- ===== src/Base/Statuses.antt =====
-- Errors that the gRPC server passes on as they are: those made by google.golang.org/grpc/status. An
-- action is polite if every error that it gives is one of them.
use mathlib.Core.Bool.{Bool, true, false}
use reference_guides.Base.Tests.{if◌then◌else◌}
use reference_guides.Base.Fallible.{
  Code, Error, status, Result, ok, err, Exec, pure, fail, or_fail, replace_error, attempt,
  tolerate_existing, continue, ◌>>=◌,
}

abbrev pub IsStatus : Error → Type 0
IsStatus (status c) = Unit
IsStatus _ = ⊥

-- A value, or an error made by `status`.
abbrev pub IsPolite : {A : Type 0} → Result A → Type 0
IsPolite (ok a) = Unit
IsPolite (err e) = IsStatus e

pub record Polite {S A : Type 0} (m : Exec S A) : Type 0 where
  pub polite : (s : S) → IsPolite (m s).0

module _ {S A : Type 0} where
  pub attempt-Polite : (m : Exec S A) → Polite (attempt m)
  attempt-Polite m = record { polite = λ s. tt }

  tolerated : (c : Code) (r : Result A) (s : S) → IsPolite (tolerate_existing c r s).0
  tolerated c (err Error.out_of_free_space_error) s = tt
  tolerated c (err Error.bad_parameters_error) s = tt
  tolerated c (err Error.no_such_lun_error) s = tt
  tolerated c (err Error.lun_reach_max_count_error) s = tt
  tolerated c (err Error.target_reach_max_count_error) s = tt
  tolerated c (err Error.no_such_snapshot_error) s = tt
  tolerated c (err Error.bad_lun_type_error) s = tt
  tolerated c (err Error.snapshot_reach_max_count_error) s = tt
  tolerated c (err (Error.iscsi_default_error n)) s = tt
  tolerated c (err Error.no_such_share_error) s = tt
  tolerated c (err Error.share_reach_max_count_error) s = tt
  tolerated c (err Error.share_system_busy_error) s = tt
  tolerated c (err (Error.share_default_error n)) s = tt
  tolerated c (err Error.errorf) s = tt
  tolerated c (err Error.nil_dereference) s = tt
  tolerated c (err Error.index_out_of_range) s = tt
  tolerated c (err Error.already_exist_error) s = tt
  tolerated c (err (status d)) s = tt
  tolerated c (ok a) s = tt

  pub tolerate_existing-Polite : (c : Code) (r : Result A) → Polite (tolerate_existing {S = S} c r)
  tolerate_existing-Polite c r = record { polite = λ s. tolerated c r s }

  pub pure-Polite : (a : A) → Polite (pure {S = S} a)
  pure-Polite a = record { polite = λ s. tt }

  pub fail-Polite : (c : Code) → Polite {S = S} {A = A} (fail (status c))
  fail-Polite c = record { polite = λ s. tt }

  replaced : (c : Code) (r : Result A) (s : S) → IsPolite (replace_error (status c) (r, s)).0
  replaced c (ok a) s = tt
  replaced c (err e) s = tt

  pub or_fail-Polite : (c : Code) (m : Exec S A) → Polite (or_fail (status c) m)
  or_fail-Polite c m = record { polite = λ s. replaced c (m s).0 (m s).1 }

  pub if-Polite : (b : Bool) (m n : Exec S A) → Polite m → Polite n → Polite (if b then m else n)
  if-Polite true m n h k = h
  if-Polite false m n h k = k

module _ {S A B : Type 0} where
  continued :
      (f : A → Exec S B) (r : Result A) (s : S)
      → IsPolite r
      → ((a : A) → Polite (f a))
      → IsPolite (continue f (r, s)).0
  continued f (ok a) s h k = (k a).polite s
  continued f (err e) s h k = h

  pub bind-Polite :
      (m : Exec S A) (f : A → Exec S B) → Polite m → ((a : A) → Polite (f a)) → Polite (m >>= f)
  bind-Polite m f h k = record { polite = λ s. continued f (m s).0 (m s).1 (h.polite s) k }

pub ruleset polite = (
  bind-Polite, if-Polite, or_fail-Polite, tolerate_existing-Polite, attempt-Polite, pure-Polite,
  fail-Polite,
)
