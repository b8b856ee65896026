-- ===== src/Base/Text.antt =====
-- Go's string as its bytes, with the operations of `strings` and `strconv` that the driver uses.
-- `strings.ToLower` is the one of ASCII text.
use Prim.Native.Nat.{ℕ, zero, suc, ◌+◌, ◌-◌, ◌*◌, ◌/◌, ◌%◌, ◌^◌}
use Prim.Native.Char.{code}
use Prim.Native.String.{String}
use mathlib.Core.Path.{◌≡◌, refl}
use mathlib.Core.Logic.{◌↔◌}
use mathlib.Core.Bool.{Bool, true, false, ◌&&◌, ◌||◌}
use mathlib.Core.List.{List, [], ◌∷◌, ◌++◌}
use mathlib.Core.Option.{Option, none, some}
use native.Mathlib.Omega.{arith}
use reference_guides.Base.Tests.{ltb, leb, eqb, if◌then◌else◌}
use reference_guides.Base.Lists.{length}
use reference_guides.Base.Int.{ℤ, pos, sub_ℕ}

abbrev pub GoString : Type 0
GoString = List ℕ

-- The bytes of an ASCII literal.
abbrev pub codes : String → GoString
codes String.[] = []
codes (String.◌∷◌ c s) = code c ∷ codes s

infix 50 ◌==◌ ◌/=◌
unfoldable pub ◌==◌ : GoString → GoString → Bool
[] == [] = true
[] == (y ∷ t) = false
(x ∷ s) == [] = false
(x ∷ s) == (y ∷ t) = eqb x y && s == t

abbrev pub ◌/=◌ : GoString → GoString → Bool
s /= t = if s == t then false else true

pub eq_iff : (s t : GoString) → ((s == t) ≡ true) ↔ (s ≡ t)
unfolding ◌==◌
eq_iff [] [] = ground arith
eq_iff [] (y ∷ t) = ground arith
eq_iff (x ∷ s) [] = ground arith
eq_iff (x ∷ s) (y ∷ t) = ground (arith, eq_iff s t)

pub eq_refl : (s : GoString) → (s == s) ≡ true
eq_refl s = (eq_iff s s).1 refl

-- s < t, byte by byte.
unfoldable pub less : GoString → GoString → Bool
less s [] = false
less [] (y ∷ t) = true
less (x ∷ s) (y ∷ t) = ltb x y || eqb x y && less s t

unfoldable pub has_prefix : GoString → GoString → Bool
has_prefix s [] = true
has_prefix [] (p ∷ ps) = false
has_prefix (x ∷ s) (p ∷ ps) = eqb x p && has_prefix s ps

pub has_prefix-append : (p s : GoString) → has_prefix (p ++ s) p ≡ true
unfolding has_prefix
has_prefix-append [] s = refl
has_prefix-append (x ∷ p) s = ground (arith, has_prefix-append p s)

abbrev lower : ℕ → ℕ
lower c = if leb b'A' c && leb c b'Z' then c + 32 else c

unfoldable pub to_lower : GoString → GoString
to_lower [] = []
to_lower (c ∷ s) = lower c ∷ to_lower s

-- strings.ReplaceAll for a pattern that is not empty. The number counts the bytes of an occurrence
-- that are still to be passed over.
replace_from : GoString → GoString → ℕ → GoString → GoString
replace_from old new skip [] = []
replace_from old new (suc skip) (c ∷ s) = replace_from old new skip s
replace_from old new zero (c ∷ s) = elim (has_prefix (c ∷ s) old) [
  | true ↦ new ++ replace_from old new (length old - 1) s
  | false ↦ c ∷ replace_from old new zero s
]

unfoldable pub replace_all : GoString → GoString → GoString → GoString
unfolding replace_from has_prefix
replace_all s old new = replace_from old new 0 s

-- strings.ReplaceAll for a pattern of one byte, written with that byte.
unfoldable pub replace_byte : ℕ → ℕ → GoString → GoString
replace_byte old new [] = []
replace_byte old new (c ∷ s) = (if eqb c old then new else c) ∷ replace_byte old new s

-- The value of a text of decimal digits, and `none` for any other byte.
digits_value : ℕ → GoString → Option ℕ
digits_value n [] = some n
digits_value n (c ∷ s) = elim (leb b'0' c && leb c b'9') [
  | true ↦ digits_value (n * 10 + (c - b'0')) s
  | false ↦ none
]

abbrev in_range : Bool → Option ℕ → Option ℤ
in_range negative none = none
in_range true (some n) = if leb n (2 ^ 63) then some (sub_ℕ 0 n) else none
in_range false (some n) = if ltb n (2 ^ 63) then some (pos n) else none

parse_digits : Bool → GoString → Option ℤ
parse_digits negative [] = none
parse_digits negative (c ∷ s) = in_range negative (digits_value 0 (c ∷ s))

-- strconv.ParseInt(s, 10, 64): an optional sign, then digits; `none` where it returns an error, also
-- for a value outside int64.
unfoldable pub parse_int : GoString → Option ℤ
unfolding digits_value parse_digits
parse_int [] = none
parse_int (c ∷ s) =
    if eqb c b'-'
    then parse_digits true s
    else if eqb c b'+'
    then parse_digits false s
    else parse_digits false (c ∷ s)

-- strings.Contains
unfoldable pub contains : GoString → GoString → Bool
unfolding has_prefix
contains [] p = has_prefix [] p
contains (c ∷ s) p = has_prefix (c ∷ s) p || contains s p

-- The decimal digits of n before `out`. Each round divides n by ten, so n rounds are enough.
decimal : ℕ → ℕ → GoString → GoString
decimal zero n out = out
decimal (suc fuel) n out =
    let more = decimal fuel (n / 10) ((b'0' + n % 10) ∷ out) in if eqb n 0 then out else more

abbrev format : ℕ → GoString
format n = if eqb n 0 then b'0' ∷ [] else decimal n n []

-- strconv.Itoa
unfoldable pub itoa : ℤ → GoString
unfolding decimal
itoa (pos n) = format n
itoa (ℤ.negsuc n) = b'-' ∷ format (suc n)
