-- ===== src/Controller/Paging.antt =====
-- pkg/driver/controllerserver.go: the loop of ListVolumes and ListSnapshots that skips to the token, and
-- stops when the page is full.
pub mod Walk
pub mod Gather
pub mod Stuck
use reference_guides.Base.{
  ℕ, zero, ◌+◌, ℤ, pos, negsuc, ltb_ℤ, GoString, ◌==◌, ◌/=◌, Bool, true, false, ◌&&◌, List, map, [],
  ◌∷◌, status, invalid_argument, aborted, Result, ok, err, if◌then◌else◌,
}

-- What the loop leaves: the entries, nextToken and pagingSkip.
pub record Page (A : Type 0) : Type 0 where
  pub entries : List A
  pub next_token : GoString
  pub paging_skip : Bool

abbrev pub entries_of : {A B : Type 0} → (A → B) → List A × GoString → List B × GoString
entries_of f (xs, token) = (map f xs, token)

abbrev pub map_result : {A B : Type 0} → (A → B) → Result A → Result B
map_result f (ok a) = ok (f a)
map_result f (err e) = err e

module _ {A : Type 0} (id_of : A → GoString) (is_shown : A → Bool) (max_entries : ℤ) where
  -- `maxEntries > 0 && count >= maxEntries`
  abbrev pub is_full : ℕ → Bool
  is_full count =
      ltb_ℤ (pos 0) max_entries && (if ltb_ℤ (pos count) max_entries then false else true)

  abbrev pub with_entry : A → Page A → Page A
  with_entry x page = record page { entries = x ∷ page.entries }

  -- An item that is skipped or not shown leaves the count as it is.
  unfoldable pub page_loop : GoString → Bool → ℕ → List A → Page A
  page_loop token skip count [] = record { entries = []; next_token = []; paging_skip = skip }
  page_loop token skip count (x ∷ xs) =
      let skip' = if id_of x == token then false else skip in
      let passed = page_loop token skip' count xs in
      let taken = with_entry x (page_loop token skip' (count + 1) xs) in
      if skip'
      then passed
      else if is_shown x
      then (if is_full count
          then record { entries = []; next_token = id_of x; paging_skip = false }
          else taken)
      else passed

  -- The handler around the loop: the check of maxEntries before it, and of the token after it.
  unfoldable pub list_page : GoString → List A → Result (List A × GoString)
  list_page token xs =
      if ltb_ℤ max_entries (pos 0)
      then err (status invalid_argument)
      else (let page = page_loop token (token /= []) 0 xs in
          if page.paging_skip then err (status aborted) else ok (page.entries, page.next_token))
