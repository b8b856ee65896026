-- ===== src/Base/Disciplines.antt =====
-- What holds of every run of an action: how the state at its end is related to the state at its start, and
-- which errors it gives. A discipline is closed under the ways in which the code puts actions together.
use mathlib.Core.Path.{◌≡◌, refl}
use mathlib.Core.Bool.{Bool, true, false}
use reference_guides.Base.Tests.{if◌then◌else◌}
use reference_guides.Base.Fallible.{
  Code, Error, errorf, status, Result, ok, err, Exec, pure, fail, lift, attempt, continue, ◌>>=◌,
}
use reference_guides.Base.Outcomes.{ValueHas}
use reference_guides.Base.Panics.{is_panic, or_status, status_for, or_value, value_for}

pub record Discipline (S : Type 0) : Type 1 where
  pub Follows : S → S → Type 0
  pub stays : (s : S) → Follows s s
  pub joins : (s t u : S) → Follows s t → Follows t u → Follows s u
  pub Fine : Error → Type 0
  pub fine_status : (c : Code) → Fine (status c)
  pub fine_errorf : Fine errorf

abbrev pub IsFine : {S A : Type 0} → Discipline S → Result A → Type 0
IsFine D (ok a) = Unit
IsFine D (err e) = D.Fine e

pub record Meets {S A : Type 0} (D : Discipline S) (m : Exec S A) : Type 0 where
  pub follows : (s : S) → D.Follows s (m s).1
  pub fine : (s : S) → IsFine D (m s).0

handled :
    {S : Type 0} (D : Discipline S) (b : Bool) (e : Error) (c : Code)
    → D.Fine e
    → D.Fine (if b then e else status c)
handled D true e c h = h
handled D false e c h = D.fine_status c

module _ {S A : Type 0} (D : Discipline S) where
  pub pure-Meets : (a : A) → Meets D (pure a)
  pure-Meets a = record { follows = D.stays; fine = λ s. tt }

  pub fail_status-Meets : (c : Code) → Meets {A = A} D (fail (status c))
  fail_status-Meets c = record { follows = D.stays; fine = λ s. D.fine_status c }

  pub fail_errorf-Meets : Meets {A = A} D (fail errorf)
  fail_errorf-Meets = record { follows = D.stays; fine = λ s. D.fine_errorf }

  pub lift-Meets : (r : Result A) → IsFine D r → Meets D (lift r)
  lift-Meets r h = record { follows = D.stays; fine = λ s. h }

  pub attempt-Meets : (m : Exec S A) → Meets D m → Meets D (attempt m)
  attempt-Meets m h = record { follows = h.follows; fine = λ s. tt }

  pub if-Meets : (b : Bool) (m n : Exec S A) → Meets D m → Meets D n → Meets D (if b then m else n)
  if-Meets true m n h k = h
  if-Meets false m n h k = k

  status_for-IsFine :
      (c : Code) (r : Result A) (s : S) → IsFine D r → IsFine D (status_for c (r, s)).0
  status_for-IsFine c (ok a) s h = tt
  status_for-IsFine c (err e) s h = handled D (is_panic e) e c h

  status_for-state : (c : Code) (r : Result A) (s : S) → (status_for c (r, s)).1 ≡ s
  status_for-state c (ok a) s = refl
  status_for-state c (err e) s = refl

  pub or_status-Meets : (c : Code) (m : Exec S A) → Meets D m → Meets D (or_status c m)
  or_status-Meets c m h = record {
    follows = λ s. rw (status_for-state c (m s).0 (m s).1) (h.follows s);
    fine = λ s. status_for-IsFine c (m s).0 (m s).1 (h.fine s);
  }

  valued : (b : Bool) (e : Error) (a : A) → D.Fine e → IsFine D (if b then err e else ok a)
  valued true e a h = h
  valued false e a h = tt

  value_for-IsFine : (a : A) (r : Result A) (s : S) → IsFine D r → IsFine D (value_for a (r, s)).0
  value_for-IsFine a (ok b) s h = tt
  value_for-IsFine a (err e) s h = valued (is_panic e) e a h

  value_for-state : (a : A) (r : Result A) (s : S) → (value_for a (r, s)).1 ≡ s
  value_for-state a (ok b) s = refl
  value_for-state a (err e) s = refl

  pub or_value-Meets : (a : A) (m : Exec S A) → Meets D m → Meets D (or_value a m)
  or_value-Meets a m h = record {
    follows = λ s. rw (value_for-state a (m s).0 (m s).1) (h.follows s);
    fine = λ s. value_for-IsFine a (m s).0 (m s).1 (h.fine s);
  }

module _ {S A B : Type 0} (D : Discipline S) where
  continued-follows :
      (f : A → Exec S B) (r : Result A) (s t : S)
      → D.Follows s t
      → ((a : A) → Meets D (f a))
      → D.Follows s (continue f (r, t)).1
  continued-follows f (ok a) s t h k = D.joins s t (f a t).1 h ((k a).follows t)
  continued-follows f (err e) s t h k = h

  continued-IsFine :
      (f : A → Exec S B) (r : Result A) (s : S)
      → IsFine D r
      → ((a : A) → Meets D (f a))
      → IsFine D (continue f (r, s)).0
  continued-IsFine f (ok a) s h k = (k a).fine s
  continued-IsFine f (err e) s h k = h

  pub bind-Meets :
      (m : Exec S A) (f : A → Exec S B) → Meets D m → ((a : A) → Meets D (f a)) → Meets D (m >>= f)
  bind-Meets m f h k = record {
    follows = λ s. continued-follows f (m s).0 s (m s).1 (h.follows s) k;
    fine = λ s. continued-IsFine f (m s).0 (m s).1 (h.fine s) k;
  }

module _ {S A B : Type 0} (D : Discipline S) (P : A → Type 0) where
  followed :
      (f : A → Exec S B) (r : Result A) (s t : S)
      → D.Follows s t
      → ValueHas P r
      → ((a : A) → P a → Meets D (f a))
      → D.Follows s (continue f (r, t)).1
  followed f (ok a) s t h p k = D.joins s t (f a t).1 h ((k a p).follows t)
  followed f (err e) s t h p k = h

  refined :
      (f : A → Exec S B) (r : Result A) (s : S)
      → IsFine D r
      → ValueHas P r
      → ((a : A) → P a → Meets D (f a))
      → IsFine D (continue f (r, s)).0
  refined f (ok a) s h p k = (k a p).fine s
  refined f (err e) s h p k = h

  -- The same where more is known of the values of the first action.
  pub bind_with-Meets :
      (m : Exec S A) (f : A → Exec S B)
      → Meets D m
      → ((s : S) → ValueHas P (m s).0)
      → ((a : A) → P a → Meets D (f a))
      → Meets D (m >>= f)
  bind_with-Meets m f h p k = record {
    follows = λ s. followed f (m s).0 s (m s).1 (h.follows s) (p s) k;
    fine = λ s. refined f (m s).0 (m s).1 (h.fine s) (p s) k;
  }

pub ruleset disciplined = (
  bind-Meets, if-Meets, or_status-Meets, or_value-Meets, pure-Meets, fail_status-Meets,
  fail_errorf-Meets, lift-Meets, attempt-Meets,
)
