-- ===== src/Base/Words.antt =====
-- Go's strings taken apart: strings.Split by one byte, strings.Fields and strings.TrimSpace of ASCII
-- text, strings.Trim, strings.TrimPrefix, strings.Join, and strconv.ParseInt of 32 bits.
use Prim.Native.Nat.{ℕ, ◌+◌, ◌-◌, ◌*◌, ◌^◌}
use mathlib.Core.Bool.{Bool, true, false, ◌&&◌, ◌||◌}
use mathlib.Core.List.{List, [], ◌∷◌, ◌++◌}
use mathlib.Core.Option.{Option, none, some}
use reference_guides.Base.Tests.{ltb, leb, eqb, if◌then◌else◌}
use reference_guides.Base.Lists.{length, drop, keep}
use reference_guides.Base.Int.{ℤ, pos, sub_ℕ}
use reference_guides.Base.Text.{GoString, has_prefix}

abbrev pub is_empty : GoString → Bool
is_empty [] = true
is_empty (c ∷ s) = false

-- A byte before the first of the pieces.
abbrev pub onto_first : ℕ → List GoString → List GoString
onto_first c [] = (c ∷ []) ∷ []
onto_first c (w ∷ ws) = (c ∷ w) ∷ ws

-- The pieces between the bytes that pass the test; there is always one.
unfoldable pub split_when : (ℕ → Bool) → GoString → List GoString
split_when p [] = [] ∷ []
split_when p (c ∷ s) = let rest = split_when p s in if p c then [] ∷ rest else onto_first c rest

-- strings.Split(s, sep) for a separator of one byte.
abbrev pub split : ℕ → GoString → List GoString
split sep s = split_when (λ c. eqb c sep) s

abbrev pub is_space : ℕ → Bool
is_space c = eqb c b' ' || leb 9 c && leb c 13

-- strings.Fields
abbrev pub fields : GoString → List GoString
fields s = keep (λ w. if is_empty w then false else true) (split_when is_space s)

unfoldable pub trim_left : (ℕ → Bool) → GoString → GoString
trim_left p [] = []
trim_left p (c ∷ s) = let rest = trim_left p s in if p c then rest else c ∷ s

unfoldable pub trim_right : (ℕ → Bool) → GoString → GoString
trim_right p [] = []
trim_right p (c ∷ s) = let rest = trim_right p s in if p c && is_empty rest then [] else c ∷ rest

-- strings.TrimFunc; strings.TrimSpace is `trim is_space`.
abbrev pub trim : (ℕ → Bool) → GoString → GoString
trim p s = trim_left p (trim_right p s)

-- strings.TrimPrefix
abbrev pub trim_prefix : GoString → GoString → GoString
trim_prefix s prefix = if has_prefix s prefix then drop (length prefix) s else s

-- strings.Join
unfoldable pub join : GoString → List GoString → GoString
join sep [] = []
join sep (w ∷ []) = w
join sep (w ∷ v ∷ ws) = w ++ (sep ++ join sep (v ∷ ws))

-- strings.NewReplacer of two bytes by nothing.
abbrev pub without : ℕ → ℕ → GoString → GoString
without a b s = keep (λ c. if eqb c a || eqb c b then false else true) s

-- strconv.ParseUint(s, 10, 32) from a value on: the value that is returned where the only error is one
-- of range, and `none` for an error of syntax. A prefix that is too large ends the loop.
uint32_value : ℕ → GoString → Option ℕ
uint32_value n [] = some n
uint32_value n (c ∷ s) =
    let n' = n * 10 + (c - b'0') in
    let rest = uint32_value n' s in
    if leb b'0' c && leb c b'9' then (if ltb n' (2 ^ 32) then rest else some (2 ^ 32 - 1)) else none

-- The value is cut to the range, and is 0 after an error of syntax.
abbrev cut_int32 : Bool → Option ℕ → ℤ
cut_int32 negative none = pos 0
cut_int32 true (some n) = if leb n (2 ^ 31) then sub_ℕ 0 n else sub_ℕ 0 (2 ^ 31)
cut_int32 false (some n) = if ltb n (2 ^ 31) then pos n else pos (2 ^ 31 - 1)

digits_int32 : Bool → GoString → ℤ
unfolding uint32_value
digits_int32 negative [] = pos 0
digits_int32 negative (c ∷ s) = cut_int32 negative (uint32_value 0 (c ∷ s))

-- The value of strconv.ParseInt(s, 10, 32), whose error is not looked at.
unfoldable pub parse_int32 : GoString → ℤ
unfolding digits_int32
parse_int32 [] = pos 0
parse_int32 (c ∷ s) =
    if eqb c b'-'
    then digits_int32 true s
    else if eqb c b'+'
    then digits_int32 false s
    else digits_int32 false (c ∷ s)
