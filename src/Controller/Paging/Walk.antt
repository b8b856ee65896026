-- ===== src/Controller/Paging/Walk.antt =====
-- pkg/driver/controllerserver.go: a client that follows nextToken from page to page sees every item once.
use reference_guides.Base.{
  ℕ, suc, ◌+◌, ◌<◌, ℤ, GoString, ◌==◌, eq_iff, eq_refl, ◌≡◌, ◌≢◌, refl, sym, ap, ◌∙◌, ◌⊎◌, inl, inr,
  Bool, true, false, true≢false, keep, length, length-append, All, All-middle, Distinct, List, [],
  ◌∷◌, ◌++◌, arith, if◌then◌else◌,
}
use reference_guides.Controller.Paging.{Page, is_full, page_loop, with_entry}

module _ {A : Type 0} (id_of : A → GoString) (is_shown : A → Bool) (max_entries : ℤ) where
  -- The token for what is left.
  abbrev pub Stops : List A → GoString → Type 0
  Stops [] next = next ≡ []
  Stops (y ∷ rest) next = next ≡ id_of y

  -- What one page makes of the items from where it begins: it shows those of a first part, and its
  -- token is that of the rest.
  pub record IsWalk (xs : List A) (count : ℕ) (page : Page A) : Type 0 where
    pub seen : List A
    pub left : List A
    pub parts : xs ≡ seen ++ left
    pub shows : page.entries ≡ keep is_shown seen
    pub started : page.paging_skip ≡ false
    pub stops : Stops left page.next_token
    pub moves :
        is_full id_of is_shown max_entries count ≡ false → (left ≡ []) ⊎ (length left < length xs)

  abbrev pub loop : GoString → Bool → ℕ → List A → Page A
  loop = page_loop id_of is_shown max_entries

  shorter : (xs seen left : List A) (x : A) → xs ≡ seen ++ left → length left < suc (length xs)
  shorter xs seen left x e = omega (arith, ap length e, length-append seen left)

  never : (b : Bool) → (if b then false else false) ≡ false
  never true = refl
  never false = refl

  -- Once the loop has begun to take items, the token plays no part.
  loop_step :
      (token : GoString) (count : ℕ) (x : A) (xs : List A)
      → loop token false count (x ∷ xs) ≡ (
          if is_shown x
          then (if is_full id_of is_shown max_entries count
              then record { entries = []; next_token = id_of x; paging_skip = false }
              else with_entry id_of is_shown max_entries x (loop token false (count + 1) xs))
          else loop token false count xs)
  unfolding page_loop
  loop_step token count x xs = rw (never (id_of x == token))

  pub page_loop-IsWalk :
      (token : GoString) (count : ℕ) (xs : List A) → IsWalk xs count (loop token false count xs)
  page_loop-IsWalk token count [] = record {
    seen = [];
    left = [];
    parts = refl;
    shows = unfold page_loop in refl;
    started = unfold page_loop in refl;
    stops = unfold page_loop in refl;
    moves = λ h. inl refl;
  }
  page_loop-IsWalk token count (x ∷ xs) = rw loop_step (
      go (is_shown x) refl (is_full id_of is_shown max_entries count) refl
        (page_loop-IsWalk token count xs) (page_loop-IsWalk token (count + 1) xs))
    where
      go :
          (shown : Bool)
          → is_shown x ≡ shown
          → (full : Bool) → is_full id_of is_shown max_entries count ≡ full
          → IsWalk xs count (loop token false count xs)
          → IsWalk xs (count + 1) (loop token false (count + 1) xs)
          → IsWalk (x ∷ xs) count (
              if shown
              then (if full
                  then record { entries = []; next_token = id_of x; paging_skip = false }
                  else with_entry id_of is_shown max_entries x (loop token false (count + 1) xs))
              else loop token false count xs)
      go false hidden full _ here there = record {
        seen = x ∷ here.seen;
        left = here.left;
        parts = ap (λ t. x ∷ t) here.parts;
        shows = rw hidden here.shows;
        started = here.started;
        stops = here.stops;
        moves = λ h. inr (shorter xs here.seen here.left x here.parts);
      }
      go true visible true full here there = record {
        seen = [];
        left = x ∷ xs;
        parts = refl;
        shows = refl;
        started = refl;
        stops = refl;
        moves = λ h. absurd (true≢false (sym full ∙ h));
      }
      go true visible false _ here there = record {
        seen = x ∷ there.seen;
        left = there.left;
        parts = ap (λ t. x ∷ t) there.parts;
        shows = rw visible (ap (λ t. x ∷ t) there.shows);
        started = there.started;
        stops = there.stops;
        moves = λ h. inr (shorter xs there.seen there.left x there.parts);
      }

  -- While it skips, the loop passes over what has another id than the token.
  pub loop_skips :
      (token : GoString) (before : List A) (y : A) (after : List A)
      → All (λ x. (id_of x == token) ≡ false) before
      → id_of y ≡ token
      → loop token true 0 (before ++ (y ∷ after)) ≡ loop token false 0 (y ∷ after)
  unfolding page_loop
  loop_skips token [] y after h e = rw (e, eq_refl token)
  loop_skips token (x ∷ before) y after (other, h) e =
      rw other (loop_skips token before y after h e)

  pub others :
      (before : List A) (y : A) (after : List A)
      → Distinct id_of (before ++ (y ∷ after))
      → All (λ x. (id_of x == id_of y) ≡ false) before
  others [] y after d = tt
  others (x ∷ before) y after (h, d) = (
    ground
        (arith, eq_iff (id_of x) (id_of y), All-middle (λ z. id_of x ≢ id_of z) before after y h),
    others before y after d,
  )
