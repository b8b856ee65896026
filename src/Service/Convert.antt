-- ===== src/Service/Convert.antt =====
-- pkg/dsm/service/dsm.go and share_volume.go: DSM objects as Kubernetes volumes and snapshots.
use reference_guides.Base.{ℤ, int64, GoString, codes, replace_all, Option, none, some, [], ◌++◌}
use reference_guides.Utils.{mb_to_bytes, protocol_iscsi, protocol_smb}
use reference_guides.WebApi.Types.{LunInfo, TargetInfo, SnapshotInfo, ShareInfo, ShareSnapshotInfo}
use reference_guides.WebApi.Zero
use reference_guides.Models.{K8sVolumeRespSpec, K8sSnapshotRespSpec, share_snapshot_desc_prefix}

-- DsmShareToK8sVolume
unfoldable pub dsm_share_to_k8s_volume : GoString → ShareInfo → K8sVolumeRespSpec
dsm_share_to_k8s_volume dsm_ip info = record {
  dsm_ip = dsm_ip;
  volume_id = info.uuid;
  size_in_bytes = mb_to_bytes info.quota_value_in_mb;
  location = info.vol_path;
  name = info.name;
  source = codes "//" ++ (dsm_ip ++ (codes "/" ++ info.name));
  lun = Zero.lun_info;
  target = Zero.target_info;
  share = info;
  protocol = protocol_smb;
}

-- DsmLunToK8sVolume
unfoldable pub dsm_lun_to_k8s_volume : GoString → LunInfo → TargetInfo → K8sVolumeRespSpec
dsm_lun_to_k8s_volume dsm_ip info target_info = record {
  dsm_ip = dsm_ip;
  volume_id = info.uuid;
  size_in_bytes = int64 info.size;
  location = info.location;
  name = info.name;
  source = [];
  lun = info;
  target = target_info;
  share = Zero.share_info;
  protocol = protocol_iscsi;
}

-- GMTToUnixSecond, from the outcome of time.Parse.
abbrev pub gmt_to_unix_second : Option ℤ → ℤ
gmt_to_unix_second none = ℤ.negsuc 0
gmt_to_unix_second (some t) = t

-- DsmShareSnapshotToK8sSnapshot
unfoldable pub dsm_share_snapshot_to_k8s_snapshot :
    (GoString → Option ℤ) → GoString → ShareSnapshotInfo → ShareInfo → K8sSnapshotRespSpec
dsm_share_snapshot_to_k8s_snapshot parse_time dsm_ip info share_info = record {
  dsm_ip = dsm_ip;
  name = replace_all info.desc share_snapshot_desc_prefix [];
  uuid = info.uuid;
  parent_name = share_info.name;
  parent_uuid = share_info.uuid;
  status = codes "Healthy";
  size_in_bytes = mb_to_bytes share_info.quota_value_in_mb;
  create_time = gmt_to_unix_second (parse_time info.time);
  time = info.time;
  root_path = share_info.vol_path;
  protocol = protocol_smb;
}

-- DsmLunSnapshotToK8sSnapshot
unfoldable pub dsm_lun_snapshot_to_k8s_snapshot :
    GoString → SnapshotInfo → LunInfo → K8sSnapshotRespSpec
dsm_lun_snapshot_to_k8s_snapshot dsm_ip info lun_info = record {
  dsm_ip = dsm_ip;
  name = info.name;
  uuid = info.uuid;
  parent_name = lun_info.name;
  parent_uuid = info.parent_uuid;
  status = info.status;
  size_in_bytes = info.total_size;
  create_time = info.create_time;
  time = [];
  root_path = info.root_path;
  protocol = protocol_iscsi;
}
