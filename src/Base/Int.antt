-- ===== src/Base/Int.antt =====
-- Go's int64 and int as integers: comparison, and addition, subtraction, multiplication and division
-- by a positive constant with the wrap-around of two's complement written out.
use Prim.Native.Nat.{ℕ, suc, ◌+◌, ◌-◌, ◌*◌, ◌/◌, ◌%◌, ◌^◌, ◌≤◌, ◌<◌}
use mathlib.Core.Path.{◌≡◌}
use mathlib.Core.Bool.{Bool}
use native.Mathlib.Omega.{arith}
use reference_guides.Base.Tests.{ltb, leb, eqb, if◌then◌else◌}

-- `negsuc n` is -(n + 1).
pub data ℤ : Type 0 where
  pos : ℕ → ℤ
  negsuc : ℕ → ℤ

abbrev pub pos_part : ℤ → ℕ
pos_part (pos n) = n
pos_part (negsuc n) = 0

abbrev pub neg_part : ℤ → ℕ
neg_part (pos n) = 0
neg_part (negsuc n) = suc n

-- a - b, as an integer.
abbrev pub sub_ℕ : ℕ → ℕ → ℤ
sub_ℕ a b = if leb b a then pos (a - b) else negsuc (b - a - 1)

infix 50 ◌≤ℤ◌ ◌<ℤ◌
abbrev pub ◌≤ℤ◌ : ℤ → ℤ → Type 0
a ≤ℤ b = pos_part a + neg_part b ≤ pos_part b + neg_part a

abbrev pub ◌<ℤ◌ : ℤ → ℤ → Type 0
a <ℤ b = pos_part a + neg_part b < pos_part b + neg_part a

abbrev pub ltb_ℤ : ℤ → ℤ → Bool
ltb_ℤ a b = ltb (pos_part a + neg_part b) (pos_part b + neg_part a)

abbrev pub eqb_ℤ : ℤ → ℤ → Bool
eqb_ℤ a b = eqb (pos_part a + neg_part b) (pos_part b + neg_part a)

pub eq_of_parts : (a b : ℤ) → pos_part a + neg_part b ≡ pos_part b + neg_part a → a ≡ b
eq_of_parts a b h = ground arith

-- The two's complement pattern of an integer in 64 bits, as an unsigned number.
unfoldable pub uint64 : ℤ → ℕ
uint64 (pos n) = n % 2 ^ 64
uint64 (negsuc n) = 2 ^ 64 - 1 - n % 2 ^ 64

-- The integer that a 64-bit pattern stands for.
unfoldable pub int64 : ℕ → ℤ
int64 n = if ltb n (2 ^ 63) then pos n else negsuc (2 ^ 64 - 1 - n)

unfoldable pub wrap64 : ℤ → ℤ
unfolding uint64 int64
wrap64 z = int64 (uint64 z)

-- a + b and a * k in int64.
unfoldable pub add64 : ℤ → ℤ → ℤ
unfolding wrap64
add64 a b = wrap64 (sub_ℕ (pos_part a + pos_part b) (neg_part a + neg_part b))

unfoldable pub mul64 : ℤ → ℕ → ℤ
unfolding wrap64
mul64 a k = wrap64 (sub_ℕ (pos_part a * k) (neg_part a * k))

-- a / k for k > 0: Go's division truncates towards zero.
unfoldable pub quot64 : ℤ → ℕ → ℤ
quot64 a k = sub_ℕ (pos_part a / k) (neg_part a / k)

-- a - b and a * b in int64.
unfoldable pub sub64 : ℤ → ℤ → ℤ
unfolding wrap64
sub64 a b = wrap64 (sub_ℕ (pos_part a + neg_part b) (neg_part a + pos_part b))

unfoldable pub times64 : ℤ → ℤ → ℤ
unfolding wrap64
times64 a b = wrap64 (
    sub_ℕ (pos_part a * pos_part b + neg_part a * neg_part b)
      (pos_part a * neg_part b + neg_part a * pos_part b))

-- Where the product fits, the multiplication does not wrap.
pub mul64-pos : (a k : ℕ) → a * k < 2 ^ 63 → mul64 (pos a) k ≡ pos (a * k)
unfolding mul64
mul64-pos a k h = ground arith

pub add64-pos : (a b : ℕ) → a + b < 2 ^ 63 → add64 (pos a) (pos b) ≡ pos (a + b)
unfolding add64
add64-pos a b h = ground arith

pub quot64-pos : (a k : ℕ) → quot64 (pos a) k ≡ pos (a / k)
unfolding quot64
quot64-pos a k = ground arith

-- int64(uint64(z)) is z for z in the range of int64.
pub int64-uint64 : (z : ℤ) → pos_part z < 2 ^ 63 → neg_part z ≤ 2 ^ 63 → int64 (uint64 z) ≡ z
unfolding int64 uint64
int64-uint64 (pos n) h k = ground arith
int64-uint64 (negsuc n) h k = ground arith
