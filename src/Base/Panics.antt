-- ===== src/Base/Panics.antt =====
-- Errors that are handled while a run-time panic goes on to the caller.
use mathlib.Core.Bool.{Bool, true, false}
use reference_guides.Base.Tests.{if◌then◌else◌}
use reference_guides.Base.Fallible.{Code, Error, status, Result, ok, err, Exec}

abbrev pub is_panic : Error → Bool
is_panic Error.nil_dereference = true
is_panic Error.index_out_of_range = true
is_panic _ = false

module _ {S A : Type 0} where
  abbrev pub status_for : Code → Result A × S → Result A × S
  status_for c (ok a, s) = (ok a, s)
  status_for c (err e, s) = (err (if is_panic e then e else status c), s)

  -- `if err != nil { return nil, status.Error(code, …) }`
  abbrev pub or_status : Code → Exec S A → Exec S A
  or_status c m s = status_for c (m s)

  abbrev pub value_for : A → Result A × S → Result A × S
  value_for b (ok a, s) = (ok a, s)
  value_for b (err e, s) = ((if is_panic e then err e else ok b), s)

  -- An error is logged, and the code goes on with this value.
  abbrev pub or_value : A → Exec S A → Exec S A
  or_value b m s = value_for b (m s)
