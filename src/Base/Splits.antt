-- ===== src/Base/Splits.antt =====
-- What strings.Split and strings.Fields make of texts that are put together from pieces.
use Prim.Native.Nat.{ℕ}
use mathlib.Core.Bool.{Bool, true, false, ◌&&◌}
use mathlib.Core.List.{List, [], ◌∷◌, ◌++◌, append-nil, append_assoc}
use mathlib.Core.Path.{◌≡◌, refl, ap, ◌∙◌}
use reference_guides.Base.Lists.{All}
use reference_guides.Base.Tests.{if◌then◌else◌}
use reference_guides.Base.Text.{GoString}
use reference_guides.Base.Words.{is_empty, is_space, fields, split_when, trim_left, trim_right}

-- No byte of the text passes the test.
abbrev pub Free : (ℕ → Bool) → GoString → Type 0
Free p w = All (λ c. p c ≡ false) w

pub split_when-Free : (p : ℕ → Bool) (w : GoString) → Free p w → split_when p w ≡ w ∷ []
unfolding split_when
split_when-Free p [] h = refl
split_when-Free p (c ∷ w) (here, later) = rw here (rw (split_when-Free p w later) refl)

pub split_when_at :
    (p : ℕ → Bool) (w s : GoString) (c : ℕ)
    → Free p w
    → p c ≡ true
    → split_when p (w ++ (c ∷ s)) ≡ w ∷ split_when p s
unfolding split_when
split_when_at p [] s c h hit = rw hit refl
split_when_at p (d ∷ w) s c (here, later) hit = rw here (rw (split_when_at p w s c later hit) refl)

-- Words with a space between them.
abbrev pub spaced : List GoString → GoString
spaced [] = []
spaced (w ∷ []) = w
spaced (w ∷ v ∷ ws) = w ++ (b' ' ∷ spaced (v ∷ ws))

pub Free-map :
    (p q : ℕ → Bool) (w : GoString) → ((c : ℕ) → p c ≡ false → q c ≡ false) → Free p w → Free q w
Free-map p q [] f h = tt
Free-map p q (c ∷ w) f (here, later) = (f c here, Free-map p q w f later)

pub Free-append : (p : ℕ → Bool) (v w : GoString) → Free p v → Free p w → Free p (v ++ w)
Free-append p [] w h k = k
Free-append p (c ∷ v) w (here, later) k = (here, Free-append p v w later k)

-- A word: not empty, and without spaces.
abbrev pub IsWord : GoString → Type 0
IsWord w = (is_empty w ≡ false) × Free is_space w

pub fields-spaced : (ws : List GoString) → All IsWord ws → fields (spaced ws) ≡ ws
unfolding split_when
fields-spaced [] h = refl
fields-spaced (w ∷ []) ((there, plain), tt) = rw (split_when-Free is_space w plain) (rw there refl)
fields-spaced (w ∷ v ∷ ws) ((there, plain), later) =
    rw (split_when_at is_space w (spaced (v ∷ ws)) b' ' plain refl)
      (rw there (ap (λ x. w ∷ x) (fields-spaced (v ∷ ws) later)))

pub empty_append : (v w : GoString) → is_empty w ≡ false → is_empty (v ++ w) ≡ false
empty_append [] w h = h
empty_append (c ∷ v) w h = refl

pub trim_right-Free :
    (w s : GoString) → Free is_space w → trim_right is_space (w ++ s) ≡ w ++ trim_right is_space s
unfolding trim_right
trim_right-Free [] s h = refl
trim_right-Free (c ∷ w) s (here, later) = rw here (ap (λ x. c ∷ x) (trim_right-Free w s later))

-- A space goes only where nothing is left behind it.
pub cut :
    (b : Bool) (c : ℕ) (s : GoString)
    → is_empty s ≡ false
    → (if b && is_empty s then [] else c ∷ s) ≡ c ∷ s
cut true c s h = rw h refl
cut false c s h = refl

pub trim_right_there :
    (w s : GoString)
    → is_empty (trim_right is_space s) ≡ false
    → trim_right is_space (w ++ s) ≡ w ++ trim_right is_space s
unfolding trim_right
trim_right_there [] s h = refl
trim_right_there (c ∷ w) s h =
    rw (trim_right_there w s h)
      (cut (is_space c) c (w ++ trim_right is_space s) (empty_append w (trim_right is_space s) h))

pub spaced_there :
    (v : GoString) (ws : List GoString) → is_empty v ≡ false → is_empty (spaced (v ∷ ws)) ≡ false
spaced_there v [] h = h
spaced_there v (w ∷ ws) h = empty_append v (b' ' ∷ spaced (w ∷ ws)) refl

pub trim_right_words :
    (ws : List GoString) (t : GoString)
    → All IsWord ws
    → trim_right is_space t ≡ []
    → trim_right is_space (spaced ws ++ t) ≡ spaced ws
unfolding trim_right
trim_right_words [] t h e = e
trim_right_words (w ∷ []) t ((there, plain), tt) e = trim_right-Free w t plain ∙ rw e (append-nil w)
trim_right_words (w ∷ v ∷ ws) t ((there, plain), ((more, plain_v), later)) e =
    let rest : GoString = spaced (v ∷ ws) in
    ap (trim_right is_space) (append_assoc w (b' ' ∷ rest) t)
    ∙ trim_right-Free w (b' ' ∷ (rest ++ t)) plain
    ∙ ap (λ x. w ++ x)
        (rw (trim_right_words (v ∷ ws) t ((more, plain_v), later) e)
          (cut true b' ' rest (spaced_there v ws more)))

pub trim_left_word : (w s : GoString) → IsWord w → trim_left is_space (w ++ s) ≡ w ++ s
unfolding trim_left
trim_left_word [] s (there, plain) = cc
trim_left_word (c ∷ w) s (there, (here, later)) = rw here refl
