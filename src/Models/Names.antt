-- ===== src/Models/Names.antt =====
-- pkg/models/dsm.go: the names that the driver gives to LUNs and shares.
use reference_guides.Base.{
  ℕ, zero, suc, ◌≤◌, GoString, length, take, drop, length-take, has_prefix, ◌≡◌, refl, ◌↔◌, ap, sym,
  true, ◌++◌, [], ◌∷◌, arith, ◌∙◌,
}
use reference_guides.Models.{max_share_len, share_prefix, cut, gen_lun_name, gen_share_name}

take_all : (n : ℕ) (s : GoString) → length s ≤ n → take n s ≡ s
take_all zero [] h = refl
take_all zero (c ∷ s) h = absurd (omega arith)
take_all (suc n) [] h = refl
take_all (suc n) (c ∷ s) h = ap (λ t. c ∷ t) (take_all n s (omega arith))

pub cut_lem : (n : ℕ) (s : GoString) → cut n s ≡ take n s
cut_lem n s = ground (arith, take_all n s)

gen_share_name_lem :
    (vol_name : GoString) → gen_share_name vol_name ≡ share_prefix ++ (b'-' ∷ take 24 vol_name)
unfolding gen_share_name
gen_share_name_lem vol_name = cut_lem max_share_len (share_prefix ++ (b'-' ∷ vol_name))

-- A share's name is at most 32 bytes long and begins with the prefix by which volumes are listed.
pub gen_share_name_fits :
    (vol_name : GoString)
    → (length (gen_share_name vol_name) ≤ max_share_len)
      × (has_prefix (gen_share_name vol_name) share_prefix ≡ true)
unfolding has_prefix
gen_share_name_fits vol_name = rw gen_share_name_lem (omega (arith, length-take 24 vol_name), refl)

-- Two volumes get one share name exactly when their names agree on the first 24 bytes; LUN names never
-- collide.
pub names_collide :
    (a b : GoString)
    → ((gen_share_name a ≡ gen_share_name b) ↔ (take 24 a ≡ take 24 b))
      × ((gen_lun_name a ≡ gen_lun_name b) ↔ (a ≡ b))
unfolding gen_lun_name
names_collide a b = (
  (
    λ e. ap (drop 8) (sym (gen_share_name_lem a) ∙ e ∙ gen_share_name_lem b),
    λ e. rw (gen_share_name_lem, gen_share_name_lem) (ap (λ t. share_prefix ++ (b'-' ∷ t)) e),
  ),
  (ap (drop 8), ap gen_lun_name),
)
