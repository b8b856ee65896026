-- ===== src/Models.antt =====
-- pkg/models: names and constants (dsm.go), and the records that the service and the CSI handlers pass
-- to each other (dsm_req_spec.go).
pub mod Names
use reference_guides.Base.{
  ℕ, ℤ, GoString, codes, ltb, length, take, less, Bool, ◌++◌, ◌∷◌, [], if◌then◌else◌,
}
use reference_guides.WebApi.Types.{LunInfo, TargetInfo, ShareInfo}

abbrev pub k8s_csi_name : GoString
k8s_csi_name = codes "Kubernetes CSI"

abbrev pub max_iqn_len : ℕ
max_iqn_len = 128

abbrev pub max_share_len : ℕ
max_share_len = 32

abbrev pub target_prefix : GoString
target_prefix = codes "k8s-csi"

abbrev pub lun_prefix : GoString
lun_prefix = codes "k8s-csi"

abbrev pub iqn_prefix : GoString
iqn_prefix = codes "iqn.2000-01.com.synology:"

abbrev pub share_prefix : GoString
share_prefix = codes "k8s-csi"

abbrev pub share_snapshot_desc_prefix : GoString
share_snapshot_desc_prefix = codes "(Do not change)"

-- s[:n] behind a test len(s) > n.
abbrev pub cut : ℕ → GoString → GoString
cut n s = if ltb n (length s) then take n s else s

-- GenLunName
unfoldable pub gen_lun_name : GoString → GoString
gen_lun_name vol_name = lun_prefix ++ (b'-' ∷ vol_name)

-- GenShareName
unfoldable pub gen_share_name : GoString → GoString
gen_share_name vol_name = cut max_share_len (share_prefix ++ (b'-' ∷ vol_name))

pub record CreateK8sVolumeSpec : Type 0 where
  pub dsm_ip : GoString
  pub k8s_volume_name : GoString
  pub lun_name : GoString
  pub lun_description : GoString
  pub share_name : GoString
  pub location : GoString
  pub size : ℤ
  pub lun_type : GoString
  pub thin_provisioning : Bool
  pub target_name : GoString
  pub multiple_session : Bool
  pub source_snapshot_id : GoString
  pub source_volume_id : GoString
  pub protocol : GoString

pub record K8sVolumeRespSpec : Type 0 where
  pub dsm_ip : GoString
  pub volume_id : GoString
  pub size_in_bytes : ℤ
  pub location : GoString
  pub name : GoString
  pub source : GoString
  pub lun : LunInfo
  pub target : TargetInfo
  pub share : ShareInfo
  pub protocol : GoString

pub record K8sSnapshotRespSpec : Type 0 where
  pub dsm_ip : GoString
  pub name : GoString
  pub uuid : GoString
  pub parent_name : GoString
  pub parent_uuid : GoString
  pub status : GoString
  pub size_in_bytes : ℤ
  pub create_time : ℤ
  pub time : GoString
  pub root_path : GoString
  pub protocol : GoString

pub record CreateK8sVolumeSnapshotSpec : Type 0 where
  pub k8s_volume_id : GoString
  pub snapshot_name : GoString
  pub description : GoString
  pub taken_by : GoString
  pub is_locked : Bool

-- ByVolumeId.Less
unfoldable pub volume_less : K8sVolumeRespSpec → K8sVolumeRespSpec → Bool
volume_less a b = less a.volume_id b.volume_id

abbrev pub snapshot_key : K8sSnapshotRespSpec → GoString
snapshot_key a = a.parent_uuid ++ (b'/' ∷ a.uuid)

-- BySnapshotAndParentUuid.Less
unfoldable pub snapshot_less : K8sSnapshotRespSpec → K8sSnapshotRespSpec → Bool
snapshot_less a b = less (snapshot_key a) (snapshot_key b)
