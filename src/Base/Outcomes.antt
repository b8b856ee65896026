-- ===== src/Base/Outcomes.antt =====
-- What holds of the value of an action, where it has one.
use mathlib.Core.Path.{◌≡◌, refl}
use mathlib.Core.Bool.{Bool, true, false}
use reference_guides.Base.Tests.{if◌then◌else◌}
use reference_guides.Base.Fallible.{Error, Result, ok, err, Exec, pure, fail, continue, ◌>>=◌}

abbrev pub ValueHas : {A : Type 0} → (A → Type 0) → Result A → Type 0
ValueHas P (ok a) = P a
ValueHas P (err e) = Unit

pub record Ensures {S A : Type 0} (P : A → Type 0) (m : Exec S A) : Type 0 where
  pub ensures : (s : S) → ValueHas P (m s).0

module _ {S A : Type 0} (P : A → Type 0) where
  pub pure-Ensures : (a : A) → P a → Ensures P (pure {S = S} a)
  pure-Ensures a p = record { ensures = λ s. p }

  pub fail-Ensures : (e : Error) → Ensures P (fail {S = S} e)
  fail-Ensures e = record { ensures = λ s. tt }

  pub if-Ensures :
      (b : Bool) (m n : Exec S A)
      → (b ≡ true → Ensures P m)
      → (b ≡ false → Ensures P n)
      → Ensures P (if b then m else n)
  if-Ensures true m n h k = h refl
  if-Ensures false m n h k = k refl

module _ {S A B : Type 0} (P : B → Type 0) where
  continued :
      (f : A → Exec S B) (r : Result A) (s : S)
      → ((a : A) → Ensures P (f a))
      → ValueHas P (continue f (r, s)).0
  continued f (ok a) s k = (k a).ensures s
  continued f (err e) s k = tt

  pub bind-Ensures :
      (m : Exec S A) (f : A → Exec S B) → ((a : A) → Ensures P (f a)) → Ensures P (m >>= f)
  bind-Ensures m f k = record { ensures = λ s. continued f (m s).0 (m s).1 k }

pub ruleset outcomes = (bind-Ensures, if-Ensures, pure-Ensures, fail-Ensures)
