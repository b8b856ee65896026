-- ===== src/Service/Location/Choice.antt =====
-- pkg/dsm/service/dsm.go: what the volume that is chosen for a new LUN or share satisfies, and what an
-- IQN that the driver makes looks like.
use reference_guides.Base.{
  ℕ, ◌≤◌, ℤ, ◌≤ℤ◌, ◌<ℤ◌, pos, GoString, parse_int, replace_byte, ◌≡◌, ◌≢◌, refl, ap, subst,
  Option-cases, Bool-cases, inl, inr, true, false, All, some, List, [], ◌∷◌, ◌++◌, ok, err, length,
  length-take, arith, Error, All-take, ok-injective,
}
use reference_guides.Utils.{unit_gb}
use reference_guides.Models.{max_iqn_len, iqn_prefix}
use reference_guides.Models.Names.{cut_lem}
use reference_guides.WebApi.Types.{VolInfo}
use reference_guides.Service.Location.{
  is_unusable, is_esata, is_passed_over, first_available, gen_target_iqn,
}

-- The loop goes on behind this volume.
abbrev pub IsPassed : ℤ → VolInfo → Type 0
IsPassed size v = (free : ℤ) × (parse_int v.free ≡ some free) × (is_passed_over size v free ≡ true)

pub record IsChosen (size : ℤ) (vs : List VolInfo) (v : VolInfo) : Type 0 where
  pub passed : List VolInfo
  pub rest : List VolInfo
  pub free : ℤ
  pub parts : vs ≡ passed ++ (v ∷ rest)
  pub earlier : All (IsPassed size) passed
  pub parses : parse_int v.free ≡ some free
  pub has_unit : pos unit_gb ≤ℤ free
  pub has_room : size <ℤ free
  pub usable : is_unusable v ≡ false
  pub inside : is_esata v ≡ false

prepend :
    (size : ℤ) (w : VolInfo) (ws : List VolInfo) (v : VolInfo)
    → IsPassed size w
    → IsChosen size ws v
    → IsChosen size (w ∷ ws) v
prepend size w ws v h c = record {
  passed = w ∷ c.passed;
  rest = c.rest;
  free = c.free;
  parts = ap (λ l. w ∷ l) c.parts;
  earlier = (h, c.earlier);
  parses = c.parses;
  has_unit = c.has_unit;
  has_room = c.has_room;
  usable = c.usable;
  inside = c.inside;
}

here :
    (size : ℤ) (w : VolInfo) (ws : List VolInfo) (free : ℤ)
    → parse_int w.free ≡ some free
    → is_passed_over size w free ≡ false
    → IsChosen size (w ∷ ws) w
unfolding is_passed_over
here size w ws free p f = record {
  passed = [];
  rest = ws;
  free = free;
  parts = refl;
  earlier = tt;
  parses = p;
  has_unit = ground (arith, f);
  has_room = ground (arith, f);
  usable = ground (arith, f);
  inside = ground (arith, f);
}

-- The volume that getFirstAvailableVolume chooses is the first in the list that it may use: all before
-- it are passed over, and it has at least 1 GB and more than the size free, is not crashed, read-only
-- or being deleted, and is no eSATA disk.
pub first_available-IsChosen :
    (size : ℤ) (vs : List VolInfo) (v : VolInfo)
    → first_available size vs ≡ ok v
    → IsChosen size vs v
unfolding first_available
first_available-IsChosen size [] v e = cc
first_available-IsChosen size (w ∷ ws) v e = elim (Option-cases (parse_int w.free)) [
  | inl n ↦ absurd (no (rw (n, first_available) at e))
  | inr (free, p) ↦ elim (Bool-cases (is_passed_over size w free)) [
    | inl t ↦
        prepend size w ws v (free, p, t)
          (first_available-IsChosen size ws v (rw (p, t, first_available) at e))
    | inr f ↦
        subst (IsChosen size (w ∷ ws)) (ok-injective w v (rw (p, f, first_available) at e))
          (here size w ws free p f)
  ]
]
  where
    no : err Error.errorf ≡ ok v → ⊥
    no h = cc

replaced : (old new : ℕ) (s : GoString) → old ≢ new → All (λ c. c ≢ old) (replace_byte old new s)
unfolding replace_byte
replaced old new [] d = tt
replaced old new (c ∷ s) d = (ground (arith, d), replaced old new s d)

replaced_keeps :
    (other old new : ℕ) (s : GoString)
    → new ≢ other
    → All (λ c. c ≢ other) s
    → All (λ c. c ≢ other) (replace_byte old new s)
unfolding replace_byte
replaced_keeps other old new [] d h = tt
replaced_keeps other old new (c ∷ s) d (hc, h) =
    (ground (arith, d, hc), replaced_keeps other old new s d h)

-- The IQN of a target has at most 128 bytes, and neither `_` nor `+` is among them.
pub gen_target_iqn_fits :
    (hostname name : GoString)
    → (length (gen_target_iqn hostname name) ≤ max_iqn_len)
      × All (λ c. c ≢ b'_') (gen_target_iqn hostname name)
      × All (λ c. c ≢ b'+') (gen_target_iqn hostname name)
unfolding gen_target_iqn
gen_target_iqn_fits hostname name =
    let iqn = iqn_prefix ++ (hostname ++ (b'.' ∷ name)) in
    let out = replace_byte b'+' b'p' (replace_byte b'_' b'-' iqn) in
    rw (cut_lem max_iqn_len out) (
      omega (arith, length-take max_iqn_len out),
      All-take (λ c. c ≢ b'_') max_iqn_len out
          (replaced_keeps b'_' b'+' b'p' (replace_byte b'_' b'-' iqn) (ground arith)
            (replaced b'_' b'-' iqn (ground arith))),
      All-take (λ c. c ≢ b'+') max_iqn_len out
          (replaced b'+' b'p' (replace_byte b'_' b'-' iqn) (ground arith)),
    )
