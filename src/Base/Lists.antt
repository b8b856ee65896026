-- ===== src/Base/Lists.antt =====
-- Lists measured by native numbers, searched from the front, and predicates over them.
use Prim.Native.Nat.{ℕ, zero, suc, ◌+◌, min}
use mathlib.Core.Path.{◌≡◌, refl, subst}
use mathlib.Core.Bool.{Bool, true, false}
use mathlib.Core.List.{List, [], ◌∷◌, ◌++◌, map}
use mathlib.Core.Option.{Option, none, some, some-injective}
use native.Mathlib.Omega.{arith}
use mathlib.Core.Logic.{◌≢◌, inl, inr}
use reference_guides.Base.Tests.{if◌then◌else◌, Bool-cases}

module _ {ℓ} {A : Type ℓ} where
  abbrev pub length : List A → ℕ
  length [] = 0
  length (x ∷ xs) = suc (length xs)

  abbrev pub take : ℕ → List A → List A
  take zero xs = []
  take (suc n) [] = []
  take (suc n) (x ∷ xs) = x ∷ take n xs

  abbrev pub drop : ℕ → List A → List A
  drop zero xs = xs
  drop (suc n) [] = []
  drop (suc n) (x ∷ xs) = drop n xs

  abbrev pub get_elem? : List A → ℕ → Option A
  get_elem? [] i = none
  get_elem? (x ∷ xs) zero = some x
  get_elem? (x ∷ xs) (suc i) = get_elem? xs i

  pub length-append : (xs ys : List A) → length (xs ++ ys) ≡ length xs + length ys
  length-append [] ys = omega arith
  length-append (x ∷ xs) ys = omega (arith, length-append xs ys)

  pub length-take : (n : ℕ) (xs : List A) → length (take n xs) ≡ min n (length xs)
  length-take zero xs = omega arith
  length-take (suc n) [] = omega arith
  length-take (suc n) (x ∷ xs) = omega (arith, length-take n xs)

  -- A loop that returns the first item that passes a test; `none` stands for a nil pointer.
  abbrev pub find : (A → Bool) → List A → Option A
  find p [] = none
  find p (x ∷ xs) = if p x then some x else find p xs

  -- A loop that appends the items that pass a test.
  abbrev pub keep : (A → Bool) → List A → List A
  keep p [] = []
  keep p (x ∷ xs) = let rest = keep p xs in if p x then x ∷ rest else rest

  abbrev pub any : (A → Bool) → List A → Bool
  any p [] = false
  any p (x ∷ xs) = if p x then true else any p xs

module _ {ℓ κ} {A : Type ℓ} where
  -- Every item satisfies P.
  abbrev pub All : (A → Type κ) → List A → Type κ
  All P [] = Unit
  All P (x ∷ xs) = P x × All P xs

  pub All-append : (P : A → Type κ) (xs ys : List A) → All P xs → All P ys → All P (xs ++ ys)
  All-append P [] ys hx hy = hy
  All-append P (x ∷ xs) ys (px, hx) hy = (px, All-append P xs ys hx hy)

  pub All-imp : (P Q : A → Type κ) (xs : List A) → ((x : A) → P x → Q x) → All P xs → All Q xs
  All-imp P Q [] f h = tt
  All-imp P Q (x ∷ xs) f (px, h) = (f x px, All-imp P Q xs f h)

  pub All-take : (P : A → Type κ) (n : ℕ) (xs : List A) → All P xs → All P (take n xs)
  All-take P zero xs h = tt
  All-take P (suc n) [] h = tt
  All-take P (suc n) (x ∷ xs) (px, h) = (px, All-take P n xs h)

  pub All-keep :
      (P : A → Type κ) (p : A → Bool) (xs : List A)
      → ((x : A) → p x ≡ true → P x)
      → All P (keep p xs)
  All-keep P p [] f = tt
  All-keep P p (x ∷ xs) f = elim (Bool-cases (p x)) [
    | inl t ↦ rw t (f x t, All-keep P p xs f)
    | inr n ↦ rw n (All-keep P p xs f)
  ]

  pub find-All :
      (P : A → Type κ) (p : A → Bool) (xs : List A) {x : A}
      → All P xs
      → find p xs ≡ some x
      → P x × (p x ≡ true)
  find-All P p [] h e = cc
  find-All P p (y ∷ ys) {x} (py, h) e = elim (Bool-cases (p y)) [
    | inl hit ↦
        let same : some y ≡ some x = rw hit at e in
        (
          subst P (some-injective y x same) py,
          subst (λ z. p z ≡ true) (some-injective y x same) hit,
        )
    | inr miss ↦ find-All P p ys h (rw miss at e)
  ]

-- sort.Sort, by a test that says which of two items comes first. Items of which neither comes first
-- have no set order there.
module _ {ℓ} {A : Type ℓ} (before : A → A → Bool) where
  unfoldable pub insert : A → List A → List A
  insert x [] = x ∷ []
  insert x (y ∷ ys) = let rest = insert x ys in if before y x then y ∷ rest else x ∷ y ∷ ys

  unfoldable pub sort : List A → List A
  unfolding insert
  sort [] = []
  sort (x ∷ xs) = insert x (sort xs)

module _ {ℓ κ} {A : Type ℓ} where
  pub All-middle : (P : A → Type κ) (xs ys : List A) (y : A) → All P (xs ++ (y ∷ ys)) → P y
  All-middle P [] ys y (py, h) = py
  All-middle P (x ∷ xs) ys y (px, h) = All-middle P xs ys y h

module _ {ℓ} {A : Type ℓ} where
  pub All-map {ℓ' κ} :
      {B : Type ℓ'} (P : B → Type κ) (Q : A → Type κ) (f : A → B) (xs : List A)
      → ((x : A) → Q x → P (f x))
      → All Q xs
      → All P (map f xs)
  All-map P Q f [] g h = tt
  All-map P Q f (x ∷ xs) g (qx, h) = (g x qx, All-map P Q f xs g h)

  pub keep-append : (p : A → Bool) (xs ys : List A) → keep p (xs ++ ys) ≡ keep p xs ++ keep p ys
  keep-append p [] ys = refl
  keep-append p (x ∷ xs) ys = ground (arith, keep-append p xs ys)

  -- No two items have the same key.
  abbrev pub Distinct {κ} : {K : Type κ} → (A → K) → List A → Type (ℓ ⊔ κ)
  Distinct key [] = Unit
  Distinct key (x ∷ xs) = All (λ y. key x ≢ key y) xs × Distinct key xs
