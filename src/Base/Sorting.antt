-- ===== src/Base/Sorting.antt =====
-- What sorting keeps: the items, their number, and that their keys differ.
use Prim.Native.Nat.{suc}
use mathlib.Core.Path.{◌≡◌, refl, sym}
use mathlib.Core.Logic.{◌≢◌}
use mathlib.Core.Bool.{Bool, true, false}
use mathlib.Core.List.{List, [], ◌∷◌, Perm}
use mathlib.Core.List.Perm
use native.Mathlib.Omega.{arith}
use reference_guides.Base.Tests.{if◌then◌else◌}
use reference_guides.Base.Lists.{length, All, Distinct, insert, sort}

module _ {ℓ} {A : Type ℓ} (before : A → A → Bool) where
  insert-perm : (x : A) (xs : List A) → Perm (insert before x xs) (x ∷ xs)
  unfolding insert
  insert-perm x [] = Perm.refl (x ∷ [])
  insert-perm x (y ∷ ys) = go (before y x) (insert-perm x ys)
    where
      go :
          (b : Bool)
          → Perm (insert before x ys) (x ∷ ys)
          → Perm (if b then y ∷ insert before x ys else x ∷ y ∷ ys) (x ∷ y ∷ ys)
      go false ih = Perm.refl (x ∷ y ∷ ys)
      go true ih = Perm.trans (Perm.cons y ih) (Perm.swap x y ys)

  pub sort-perm : (xs : List A) → Perm (sort before xs) xs
  unfolding sort
  sort-perm [] = Perm.refl []
  sort-perm (x ∷ xs) = Perm.trans (insert-perm x (sort before xs)) (Perm.cons x (sort-perm xs))

  length-insert : (x : A) (xs : List A) → length (insert before x xs) ≡ suc (length xs)
  unfolding insert
  length-insert x [] = refl
  length-insert x (y ∷ ys) = ground (arith, length-insert x ys)

  pub length-sort : (xs : List A) → length (sort before xs) ≡ length xs
  unfolding sort
  length-sort [] = refl
  length-sort (x ∷ xs) = ground (arith, length-insert x (sort before xs), length-sort xs)

module _ {ℓ κ} {A : Type ℓ} (before : A → A → Bool) where
  All-insert : (P : A → Type κ) (x : A) (xs : List A) → P x → All P xs → All P (insert before x xs)
  unfolding insert
  All-insert P x [] px h = (px, tt)
  All-insert P x (y ∷ ys) px (py, h) = go (before y x) (All-insert P x ys px h)
    where
      go :
          (b : Bool)
          → All P (insert before x ys)
          → All P (if b then y ∷ insert before x ys else x ∷ y ∷ ys)
      go false ih = (px, (py, h))
      go true ih = (py, ih)

  pub All-sort : (P : A → Type κ) (xs : List A) → All P xs → All P (sort before xs)
  unfolding sort
  All-sort P [] h = tt
  All-sort P (x ∷ xs) (px, h) = All-insert P x (sort before xs) px (All-sort P xs h)

module _ {ℓ κ} {A : Type ℓ} {K : Type κ} (before : A → A → Bool) (key : A → K) where
  Distinct-insert :
      (x : A) (xs : List A)
      → All (λ y. key x ≢ key y) xs
      → Distinct key xs
      → Distinct key (insert before x xs)
  unfolding insert
  Distinct-insert x [] h d = (tt, tt)
  Distinct-insert x (y ∷ ys) (ne, h) (hy, d) = go (before y x) (Distinct-insert x ys h d)
    where
      go :
          (b : Bool)
          → Distinct key (insert before x ys)
          → Distinct key (if b then y ∷ insert before x ys else x ∷ y ∷ ys)
      go false ih = ((ne, h), (hy, d))
      go true ih = (All-insert before (λ z. key y ≢ key z) x ys (λ e. ne (sym e)) hy, ih)

  pub Distinct-sort : (xs : List A) → Distinct key xs → Distinct key (sort before xs)
  unfolding sort
  Distinct-sort [] d = tt
  Distinct-sort (x ∷ xs) (h, d) =
      Distinct-insert x (sort before xs) (All-sort before (λ y. key x ≢ key y) xs h)
        (Distinct-sort xs d)
