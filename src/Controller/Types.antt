-- ===== src/Controller/Types.antt =====
-- pkg/driver/controllerserver.go: the CSI messages, as far as the handlers read or fill them, and what
-- the handlers share.
use reference_guides.Base.{
  ℕ, eqb, ℤ, pos, ltb_ℤ, GoString, ◌==◌, Bool, ◌&&◌, any, Option, none, some, List, [], ◌∷◌, status,
  invalid_argument, Result, ok, err, if◌then◌else◌,
}
use reference_guides.Utils.{unit_gb}
use reference_guides.Driver.{Driver}

-- A Go map of strings: a missing key reads as "".
abbrev pub StringMap : Type 0
StringMap = List (GoString × GoString)

abbrev pub find_key : StringMap → GoString → Option GoString
find_key [] key = none
find_key ((k, v) ∷ m) key = if k == key then some v else find_key m key

abbrev pub at_key : StringMap → GoString → GoString
at_key m key = elim (find_key m key) [ none ↦ [] | some v ↦ v ]

pub record CapacityRange : Type 0 where
  pub required_bytes : ℤ
  pub limit_bytes : ℤ

-- A content source whose type is neither is `other_source`.
pub data ContentSource : Type 0 where
  from_snapshot from_volume : GoString → ContentSource
  other_source : ContentSource

pub record CsiVolume : Type 0 where
  pub volume_id : GoString
  pub capacity_bytes : ℤ
  pub content_source : Option ContentSource
  pub volume_context : StringMap

pub record CsiSnapshot : Type 0 where
  pub size_bytes : ℤ
  pub snapshot_id : GoString
  pub source_volume_id : GoString
  -- seconds since 1970
  pub creation_time : ℤ
  pub ready_to_use : Bool

-- getSizeByCapacityRange
unfoldable pub get_size_by_capacity_range : Option CapacityRange → Result ℤ
get_size_by_capacity_range none = ok (pos unit_gb)
get_size_by_capacity_range (some range) =
    if ltb_ℤ (pos 0) range.limit_bytes && ltb_ℤ range.limit_bytes range.required_bytes
    then err (status invalid_argument)
    else if ltb_ℤ range.required_bytes (pos unit_gb)
    then err (status invalid_argument)
    else ok range.required_bytes

-- isVolumeAccessModeSupport
unfoldable pub is_volume_access_mode_support : Driver → ℕ → Bool
is_volume_access_mode_support d mode = any (λ access_mode. eqb mode access_mode.mode) d.v_cap
