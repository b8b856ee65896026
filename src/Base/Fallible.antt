-- ===== src/Base/Fallible.antt =====
-- Go functions that return `(value, error)` and change state: an action takes the state and gives back
-- the state with a value or an error. What was changed before an error stays changed.
use mathlib.Core.Bool.{Bool, true, false}
use mathlib.Core.Path.{◌≡◌}
use reference_guides.Base.Int.{ℤ}

-- codes of google.golang.org/grpc/codes that the driver uses.
pub data Code : Type 0 where
  invalid_argument not_found already_exists internal out_of_range : Code
  resource_exhausted aborted unimplemented unavailable : Code

-- pkg/utils/error.go: the errors that are told apart. `errorf` stands for an error that is only text
-- (fmt.Errorf, errors of Go's library), `status` for one made by google.golang.org/grpc/status. The
-- texts are for people and are left out. `nil_dereference` and `index_out_of_range` are run-time panics,
-- from which no code of the driver recovers.
pub data Error : Type 0 where
  out_of_free_space_error already_exist_error bad_parameters_error : Error
  no_such_lun_error lun_reach_max_count_error target_reach_max_count_error : Error
  no_such_snapshot_error bad_lun_type_error snapshot_reach_max_count_error : Error
  iscsi_default_error : ℤ → Error
  no_such_share_error share_reach_max_count_error share_system_busy_error : Error
  share_default_error : ℤ → Error
  errorf : Error
  nil_dereference index_out_of_range : Error
  status : Code → Error

-- errors.Is(err, utils.AlreadyExistError("")) and the like: no error of the driver wraps another.
abbrev pub is_already_exist : Error → Bool
is_already_exist already_exist_error = true
is_already_exist _ = false

abbrev pub is_no_such_lun : Error → Bool
is_no_such_lun no_such_lun_error = true
is_no_such_lun _ = false

pub data Result (A : Type 0) : Type 0 where
  ok : A → Result A
  err : Error → Result A

pub ok-injective : {A : Type 0} (a b : A) → ok a ≡ ok b → a ≡ b
ok-injective a b e = cc

abbrev pub Exec : Type 0 → Type 0 → Type 0
Exec S A = S → Result A × S

module _ {S A : Type 0} where
  abbrev pub pure : A → Exec S A
  pure a s = (ok a, s)

  abbrev pub fail : Error → Exec S A
  fail e s = (err e, s)

  -- The result of an action as a value, for code that looks at the error and goes on.
  abbrev pub attempt : Exec S A → Exec S (Result A)
  attempt m s = let (r, s') = m s in (ok r, s')

  -- `if err != nil { return nil, … }` with another error in its place.
  abbrev pub replace_error : Error → Result A × S → Result A × S
  replace_error e (ok a, s) = (ok a, s)
  replace_error e (err e', s) = (err e, s)

  abbrev pub or_fail : Error → Exec S A → Exec S A
  or_fail e m s = replace_error e (m s)

module _ {S A B : Type 0} where
  abbrev pub continue : (A → Exec S B) → Result A × S → Result B × S
  continue f (ok a, s) = f a s
  continue f (err e, s) = (err e, s)

  infixl 5 ◌>>=◌ ◌>>◌
  abbrev pub ◌>>=◌ : Exec S A → (A → Exec S B) → Exec S B
  ◌>>=◌ m f s = continue f (m s)

  abbrev pub ◌>>◌ : Exec S A → Exec S B → Exec S B
  m >> n = m >>= λ _. n

module _ {S A : Type 0} where
  abbrev pub lift : Result A → Exec S A
  lift r s = (r, s)

  -- `if err != nil && !errors.Is(err, utils.AlreadyExistError("")) { return …, status(code) }`
  abbrev pub tolerate_existing : Code → Result A → Exec S Unit
  tolerate_existing code (ok a) s = (ok tt, s)
  tolerate_existing code (err already_exist_error) s = (ok tt, s)
  tolerate_existing code (err _) s = (err (status code), s)
