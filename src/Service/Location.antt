-- ===== src/Service/Location.antt =====
-- pkg/dsm/service/dsm.go: where a new volume goes, of which type its LUN is, and the IQN of its target.
pub mod Choice
use reference_guides.Base.{
  ℤ, pos, ltb_ℤ, GoString, codes, ◌==◌, parse_int, replace_byte, Bool, ◌&&◌, ◌||◌, Option, none,
  some, List, [], ◌∷◌, ◌++◌, Error, errorf, Result, ok, err, length, ltb, take, if◌then◌else◌,
}
use reference_guides.Utils.{unit_gb}
use reference_guides.Models.{CreateK8sVolumeSpec, iqn_prefix, max_iqn_len, cut}
use reference_guides.WebApi.Types.{VolInfo, DsmInfo}

abbrev pub is_unusable : VolInfo → Bool
is_unusable v =
    v.status == codes "crashed" || v.status == codes "read_only" || v.status == codes "deleting"

abbrev pub is_esata : VolInfo → Bool
is_esata v = v.container == codes "external" && v.location == codes "sata"

-- The tests of the loop that lead to `continue`.
unfoldable pub is_passed_over : ℤ → VolInfo → ℤ → Bool
is_passed_over size_in_bytes v free =
    ltb_ℤ free (pos unit_gb)
    || (is_unusable v || (if ltb_ℤ size_in_bytes free then Bool.false else Bool.true))
    || is_esata v

-- The loop of getFirstAvailableVolume over the volumes of the DSM.
unfoldable pub first_available : ℤ → List VolInfo → Result VolInfo
first_available size_in_bytes [] = err errorf
first_available size_in_bytes (v ∷ vs) = elim (parse_int v.free) [
  | none ↦ err errorf
  | some free ↦
      let rest = first_available size_in_bytes vs in
      if is_passed_over size_in_bytes v free then rest else ok v
]

abbrev pub fs_type_ext4 : GoString
fs_type_ext4 = codes "ext4"

abbrev pub fs_type_btrfs : GoString
fs_type_btrfs = codes "btrfs"

-- getLunTypeByInputParams
unfoldable pub get_lun_type_by_input_params : GoString → Bool → GoString → Result GoString
get_lun_type_by_input_params lun_type is_thin location_fs_type =
    if lun_type == []
    then (if location_fs_type == fs_type_ext4
        then (if is_thin then ok (codes "ADV") else ok (codes "FILE"))
        else if location_fs_type == fs_type_btrfs
        then (if is_thin then ok (codes "BLUN") else ok (codes "BLUN_THICK"))
        else err errorf)
    else ok lun_type

-- genTargetIqn in createMappingTarget.
unfoldable pub gen_target_iqn : GoString → GoString → GoString
gen_target_iqn hostname k8s_volume_name =
    let iqn = iqn_prefix ++ (hostname ++ (b'.' ∷ k8s_volume_name)) in
    cut max_iqn_len (replace_byte b'+' b'p' (replace_byte b'_' b'-' iqn))
