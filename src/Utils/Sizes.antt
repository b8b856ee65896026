-- ===== src/Utils/Sizes.antt =====
-- pkg/utils/utils.go: what rounding a size to whole megabytes and back does.
use reference_guides.Base.{
  ℕ, ◌+◌, ◌*◌, ◌-◌, ◌/◌, ◌^◌, ◌<◌, pos, ◌≤ℤ◌, ◌<ℤ◌, add64, quot64, quot64-pos, ◌∙◌, ap, wrap64,
  int64, uint64, mul64-pos, ◌≡◌, arith,
}
use reference_guides.Utils.{unit_mb, mb_to_bytes, bytes_to_mb, bytes_to_mb_ceil}

-- For a size whose rounding does not leave int64, rounding up is division rounding up.
pub bytes_to_mb_ceil-pos :
    (n : ℕ) → n + unit_mb < 2 ^ 63 → bytes_to_mb_ceil (pos n) ≡ pos ((n + (unit_mb - 1)) / unit_mb)
unfolding bytes_to_mb_ceil add64 quot64 wrap64 int64 uint64
bytes_to_mb_ceil-pos n h = ground arith

pub mb_to_bytes-pos : (n : ℕ) → n * unit_mb < 2 ^ 63 → mb_to_bytes (pos n) ≡ pos (n * unit_mb)
unfolding mb_to_bytes
mb_to_bytes-pos n h = mul64-pos n unit_mb h

-- For a size that is not negative and that with a megabyte more fits int64 (n + 1 MB < 2^63): rounding it
-- up to megabytes and back gives at least the size, and less than a megabyte more; the number of megabytes
-- is found again by rounding down.
pub rounded_up :
    (n : ℕ)
    → n + unit_mb < 2 ^ 63
    → (pos n ≤ℤ mb_to_bytes (bytes_to_mb_ceil (pos n)))
      × (mb_to_bytes (bytes_to_mb_ceil (pos n)) <ℤ pos (n + unit_mb))
      × (bytes_to_mb (mb_to_bytes (bytes_to_mb_ceil (pos n))) ≡ bytes_to_mb_ceil (pos n))
unfolding bytes_to_mb
rounded_up n h =
    rw
      (bytes_to_mb_ceil-pos n h, mb_to_bytes-pos ((n + (unit_mb - 1)) / unit_mb) (omega (arith, h)))
      (
        omega (arith, h),
        omega (arith, h),
        quot64-pos (((n + (unit_mb - 1)) / unit_mb) * unit_mb) unit_mb ∙ ap pos (omega arith),
      )
