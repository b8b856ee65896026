-- ===== src/Controller/Paging/Gather.antt =====
-- pkg/driver/controllerserver.go: the pages that a client reads by following nextToken, put together.
use mathlib.Core.Option
use mathlib.Core.List.{map-append}
use reference_guides.Base.{
  ℕ, zero, suc, ◌≤◌, ℤ, pos, ltb_ℤ, ◌<ℤ◌, GoString, ◌==◌, eq_iff, eq_refl, ◌≡◌, ◌≢◌, refl, sym, ap,
  ◌∙◌, inl, inr, Bool, true, false, keep, keep-append, length, length-append, All, All-middle,
  Distinct, map, Option, none, some, List, [], ◌∷◌, ◌++◌, append-nil, append_assoc, Error, Result,
  ok, err, arith, subst, if◌then◌else◌,
}
use reference_guides.Controller.Paging.{Page, is_full, list_page, entries_of, map_result}
use reference_guides.Controller.Paging.Walk.{
  IsWalk, Stops, loop, page_loop-IsWalk, loop_skips, others,
}

-- The client: it asks with a token, and goes on with the next one until that is empty. It makes at
-- most `fuel` calls; `none` means that they did not suffice or that one failed.
unfoldable pub gather :
    {A : Type 0} → (GoString → Result (List A × GoString)) → ℕ → GoString → Option (List A)
gather ask zero token = none
gather ask (suc fuel) token = elim (ask token) [
  | err e ↦ none
  | ok (entries, next) ↦
      let more = gather ask fuel next in
      if next == [] then some entries else Option.map (λ rest. entries ++ rest) more
]

module _ {A : Type 0} (id_of : A → GoString) (is_shown : A → Bool) (max_entries : ℤ) where
  not_full : pos 0 <ℤ max_entries → is_full id_of is_shown max_entries 0 ≡ false
  not_full h = ground arith

  not_negative : pos 0 <ℤ max_entries → ltb_ℤ max_entries (pos 0) ≡ false
  not_negative h = ground arith

  not_empty : (s : GoString) → s ≢ [] → (s == []) ≡ false
  not_empty s h = ground (arith, eq_iff s [])

  abbrev pub ask : List A → GoString → Result (List A × GoString)
  ask xs token = list_page id_of is_shown max_entries token xs

  abbrev page_at : GoString → List A → Page A
  page_at token after = loop id_of is_shown max_entries token false 0 after

  abbrev answer : Page A → Result (List A × GoString)
  answer page = ok (page.entries, page.next_token)

  -- Without a token the page begins with the first item.
  ask_first : (xs : List A) → pos 0 <ℤ max_entries → ask xs [] ≡ answer (page_at [] xs)
  unfolding list_page
  ask_first xs h =
      rw (not_negative h, eq_refl [])
        (ground (arith, (page_loop-IsWalk id_of is_shown max_entries [] 0 xs).started))

  -- With the id of an item the page begins with that item.
  ask_at :
      (before : List A) (y : A) (rest : List A)
      → pos 0 <ℤ max_entries
      → Distinct id_of (before ++ (y ∷ rest))
      → All (λ x. id_of x ≢ []) (before ++ (y ∷ rest))
      → ask (before ++ (y ∷ rest)) (id_of y) ≡ answer (page_at (id_of y) (y ∷ rest))
  unfolding list_page
  ask_at before y rest h d named =
      rw
        (
          not_negative h,
          not_empty (id_of y) (All-middle (λ x. id_of x ≢ []) before rest y named),
          loop_skips id_of is_shown max_entries (id_of y) before y rest
              (others id_of is_shown max_entries before y rest d) refl,
        )
        (ground
          (arith, (page_loop-IsWalk id_of is_shown max_entries (id_of y) 0 (y ∷ rest)).started))

  -- What the client makes of one answer, when the rest of the pages give what is left.
  gather_page :
      (xs : List A) (fuel : ℕ) (token : GoString) (before after : List A) (page : Page A)
      (p : IsWalk id_of is_shown max_entries after 0 page)
      → ask xs token ≡ answer page
      → ((y : A) (rest : List A)
          → p.left ≡ y ∷ rest
          → (id_of y ≢ []) × (gather (ask xs) fuel (id_of y) ≡ some (keep is_shown (y ∷ rest))))
      → gather (ask xs) (suc fuel) token ≡ some (keep is_shown after)
  unfolding gather
  gather_page xs fuel token before after page p e more = rw (e, gather) (go p.left refl p.stops)
    where
      shown : (l : List A) → p.left ≡ l → page.entries ++ keep is_shown l ≡ keep is_shown after
      shown l same =
          rw (p.shows, ← keep-append is_shown p.seen l, ← same) (ap (keep is_shown) (sym p.parts))

      go :
          (l : List A)
          → p.left ≡ l
          → Stops id_of is_shown max_entries l page.next_token
          → (if page.next_token == []
              then some page.entries
              else Option.map (λ rest. page.entries ++ rest) (gather (ask xs) fuel page.next_token))
            ≡ some (keep is_shown after)
      go [] same last =
          rw (last, eq_refl []) (ap some (sym (append-nil page.entries) ∙ shown [] same))
      go (y ∷ rest) same next =
          rw (next, not_empty (id_of y) (more y rest same).0, (more y rest same).1)
            (ap some (shown (y ∷ rest) same))

  -- From a token on, the client gets what is shown from there to the end.
  gather_from :
      (xs : List A) (fuel : ℕ) (before : List A) (y : A) (rest : List A)
      → xs ≡ before ++ (y ∷ rest)
      → pos 0 <ℤ max_entries
      → Distinct id_of xs
      → All (λ x. id_of x ≢ []) xs
      → length (y ∷ rest) ≤ fuel
      → gather (ask xs) fuel (id_of y) ≡ some (keep is_shown (y ∷ rest))
  gather_from xs zero before y rest e h d named enough = absurd (omega arith)
  gather_from xs (suc fuel) before y rest e h d named enough =
      gather_page xs fuel (id_of y) before (y ∷ rest) page p asked (λ z left same. (
        All-middle (λ x. id_of x ≢ []) (before ++ p.seen) left z
            (subst (All (λ x. id_of x ≢ [])) (split z left same) named),
        gather_from xs fuel (before ++ p.seen) z left (split z left same) h d named
            (fewer z left same),
      ))
    where
      page : Page A
      page = page_at (id_of y) (y ∷ rest)

      p : IsWalk id_of is_shown max_entries (y ∷ rest) 0 page
      p = page_loop-IsWalk id_of is_shown max_entries (id_of y) 0 (y ∷ rest)

      asked : ask xs (id_of y) ≡ answer page
      asked = rw e (
          ask_at before y rest h (subst (Distinct id_of) e d)
            (subst (All (λ x. id_of x ≢ [])) e named))

      split : (z : A) (left : List A) → p.left ≡ z ∷ left → xs ≡ (before ++ p.seen) ++ (z ∷ left)
      split z left same =
          e
          ∙ ap (λ l. before ++ l) (p.parts ∙ ap (λ l. p.seen ++ l) same)
          ∙ sym (append_assoc before p.seen (z ∷ left))

      fewer : (z : A) (left : List A) → p.left ≡ z ∷ left → length (z ∷ left) ≤ fuel
      fewer z left same = elim (p.moves (not_full h)) [
        | inl end ↦ absurd (omega (arith, ap length (sym same ∙ end)))
        | inr short ↦ omega (arith, ap length same)
      ]

  -- A client that asks for more than no entries a page, with as many calls as there are items, gets
  -- every item that is shown, once and in order.
  pub gather_complete :
      (xs : List A)
      → pos 0 <ℤ max_entries
      → Distinct id_of xs
      → All (λ x. id_of x ≢ []) xs
      → gather (ask xs) (suc (length xs)) [] ≡ some (keep is_shown xs)
  gather_complete xs h d named =
      gather_page xs (length xs) [] [] xs (page_at [] xs) p (ask_first xs h) (λ z left same. (
        All-middle (λ x. id_of x ≢ []) p.seen left z
            (subst (All (λ x. id_of x ≢ [])) (split z left same) named),
        gather_from xs (length xs) p.seen z left (split z left same) h d named (fewer z left same),
      ))
    where
      p : IsWalk id_of is_shown max_entries xs 0 (page_at [] xs)
      p = page_loop-IsWalk id_of is_shown max_entries [] 0 xs

      split : (z : A) (left : List A) → p.left ≡ z ∷ left → xs ≡ p.seen ++ (z ∷ left)
      split z left same = p.parts ∙ ap (λ l. p.seen ++ l) same

      fewer : (z : A) (left : List A) → p.left ≡ z ∷ left → length (z ∷ left) ≤ length xs
      fewer z left same =
          omega (arith, ap length (split z left same), length-append p.seen (z ∷ left))

module _ {A : Type 0} (asked : GoString → Result (List A × GoString)) (fuel : ℕ)
    (token : GoString) where
  pub gather_err : {e : Error} → asked token ≡ err e → gather asked (suc fuel) token ≡ none
  unfolding gather
  gather_err h = rw (h, gather)

  pub gather_ok :
      {entries : List A} {next : GoString}
      → asked token ≡ ok (entries, next)
      → gather asked (suc fuel) token ≡ (
          if next == []
          then some entries
          else Option.map (λ rest. entries ++ rest) (gather asked fuel next))
  unfolding gather
  gather_ok h = rw (h, gather)

module _ {A B : Type 0} (f : A → B) where
  convert :
      (last : Bool) (entries : List A) (more : Option (List A))
      → (if last
          then some (map f entries)
          else Option.map (λ rest. map f entries ++ rest) (Option.map (map f) more))
        ≡ Option.map
            (map f)
            (if last then some entries else Option.map (λ rest. entries ++ rest) more)
  convert true entries more = refl
  convert false entries none = refl
  convert false entries (some rest) = ap some (sym (map-append f entries rest))

  abbrev pub converted :
      (GoString → Result (List A × GoString)) → GoString → Result (List B × GoString)
  converted asked t = map_result (entries_of f) (asked t)

  -- Entries that are converted one by one are gathered as if they were converted at the end.
  pub gather-map :
      (asked : GoString → Result (List A × GoString)) (fuel : ℕ) (token : GoString)
      → gather (converted asked) fuel token ≡ Option.map (map f) (gather asked fuel token)
  gather-map asked zero token = unfold gather in refl
  gather-map asked (suc fuel) token = go (asked token) refl (λ next. gather-map asked fuel next)
    where
      go :
          (r : Result (List A × GoString))
          → asked token ≡ r
          → ((next : GoString)
              → gather (converted asked) fuel next ≡ Option.map (map f) (gather asked fuel next))
          → gather (converted asked) (suc fuel) token
            ≡ Option.map (map f) (gather asked (suc fuel) token)
      go (err e) h ih =
          gather_err (converted asked) fuel token (ap (map_result (entries_of f)) h)
          ∙ sym (ap (Option.map (map f)) (gather_err asked fuel token h))
      go (ok (entries, next)) h ih =
          gather_ok (converted asked) fuel token (ap (map_result (entries_of f)) h)
          ∙ rw (ih next) (convert (next == []) entries (gather asked fuel next))
          ∙ sym (ap (Option.map (map f)) (gather_ok asked fuel token h))
