-- ===== src/Service/Volumes/Origin.antt =====
-- pkg/dsm/service/dsm.go and share_volume.go: the volume that CreateVolume makes on a DSM.
use reference_guides.Base.{
  ℤ, GoString, eqb_ℤ, eq_of_parts, true, Result, ◌≡◌, refl, sym, ap, Ensures, outcomes, arith,
}
use reference_guides.Utils.{protocol_smb, protocol_iscsi, mb_to_bytes, bytes_to_mb_ceil}
use reference_guides.WebApi.Types.{LunInfo, ShareInfo}
use reference_guides.WebApi.Session.{Dsm}
use reference_guides.Backend.{Backend}
use reference_guides.Models.{CreateK8sVolumeSpec, K8sVolumeRespSpec, K8sSnapshotRespSpec}
use reference_guides.Service.Convert.{dsm_lun_to_k8s_volume, dsm_share_to_k8s_volume}
use reference_guides.Service.Iscsi.{
  map_lun, create_lun_at, finish_clone, create_volume_by_snapshot, create_volume_by_volume,
}
use reference_guides.Service.Smb.{
  create_share_at, create_smb_volume_by_snapshot, create_smb_volume_by_volume,
}

-- The volume is on this DSM, of this protocol, and has the id and the name of the LUN or share.
abbrev pub IsOn : Dsm → GoString → K8sVolumeRespSpec → Type 0
IsOn dsm protocol v = (v.dsm_ip ≡ dsm.ip) × (v.protocol ≡ protocol)

module _ (B : Backend) (dsm : Dsm) (spec : CreateK8sVolumeSpec) where
  open B use {State}

  map_lun-Ensures : (lun : LunInfo) → Ensures (IsOn dsm protocol_iscsi) (map_lun B dsm spec lun)
  unfolding map_lun dsm_lun_to_k8s_volume
  map_lun-Ensures lun = search outcomes

  pub create_lun_at-Ensures : Ensures (IsOn dsm protocol_iscsi) (create_lun_at B dsm spec)
  unfolding create_lun_at
  create_lun_at-Ensures = search (outcomes, map_lun-Ensures) depth 12

  finish_clone-Ensures :
      (r : Result GoString) → Ensures (IsOn dsm protocol_iscsi) (finish_clone B dsm spec r)
  unfolding finish_clone
  finish_clone-Ensures r = search (outcomes, map_lun-Ensures) depth 12

  pub create_volume_by_snapshot-Ensures :
      (src : K8sSnapshotRespSpec)
      → Ensures (IsOn dsm protocol_iscsi) (create_volume_by_snapshot B dsm spec src)
  unfolding create_volume_by_snapshot
  create_volume_by_snapshot-Ensures src = search (outcomes, finish_clone-Ensures) depth 12

  share_volume-IsOn :
      (share : ShareInfo) → IsOn dsm protocol_smb (dsm_share_to_k8s_volume dsm.ip share)
  unfolding dsm_share_to_k8s_volume
  share_volume-IsOn share = (refl, refl)

  pub create_share_at-Ensures : Ensures (IsOn dsm protocol_smb) (create_share_at B dsm spec)
  unfolding create_share_at
  create_share_at-Ensures = search (outcomes, share_volume-IsOn) depth 12

  pub create_smb_volume_by_snapshot-Ensures :
      (src : K8sSnapshotRespSpec)
      → Ensures (IsOn dsm protocol_smb) (create_smb_volume_by_snapshot B dsm spec src)
  unfolding create_smb_volume_by_snapshot
  create_smb_volume_by_snapshot-Ensures src = search (outcomes, share_volume-IsOn) depth 16

  pub create_smb_volume_by_volume-Ensures :
      (src : ShareInfo)
      → Ensures (IsOn dsm protocol_smb) (create_smb_volume_by_volume B dsm spec src)
  unfolding create_smb_volume_by_volume
  create_smb_volume_by_volume-Ensures src = search (outcomes, share_volume-IsOn) depth 16

  -- The size of a share is the one asked for, rounded up to megabytes.
  abbrev pub HasSize : K8sVolumeRespSpec → Type 0
  HasSize v = v.size_in_bytes ≡ mb_to_bytes (bytes_to_mb_ceil spec.size)

  share_volume-HasSize :
      (share : ShareInfo)
      → eqb_ℤ (bytes_to_mb_ceil spec.size) share.quota_value_in_mb ≡ true
      → HasSize (dsm_share_to_k8s_volume dsm.ip share)
  unfolding dsm_share_to_k8s_volume
  share_volume-HasSize share h =
      ap mb_to_bytes (sym (same (bytes_to_mb_ceil spec.size) share.quota_value_in_mb h))
    where
      same : (a b : ℤ) → eqb_ℤ a b ≡ true → a ≡ b
      same a b e = ground (arith, eq_of_parts a b)

  pub restored_share-HasSize :
      (src : K8sSnapshotRespSpec) → Ensures HasSize (create_smb_volume_by_snapshot B dsm spec src)
  unfolding create_smb_volume_by_snapshot
  restored_share-HasSize src = search (outcomes, share_volume-HasSize) depth 16

pub create_volume_by_volume-Ensures :
    (B : Backend) (dsm : Dsm) (spec : CreateK8sVolumeSpec) (src : LunInfo)
    → Ensures (IsOn dsm protocol_iscsi) (create_volume_by_volume B dsm spec src)
unfolding create_volume_by_volume
create_volume_by_volume-Ensures B dsm spec src =
    search (outcomes, finish_clone-Ensures B dsm) depth 12
