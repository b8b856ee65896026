-- ===== src/WebApi/Zero.antt =====
-- Go's zero values of the records of pkg/dsm/webapi.
use reference_guides.Base.{pos, false, none, []}
use reference_guides.WebApi.Types.{
  LunInfo, TargetInfo, SnapshotInfo, VolInfo, DsmInfo, DsmSysInfo, ShareInfo,
}

abbrev pub lun_info : LunInfo
lun_info = record {
  name = [];
  uuid = [];
  lun_type = pos 0;
  location = [];
  size = 0;
  used = 0;
  status = [];
  flashcache_status = [];
  is_action_locked = false;
}

abbrev pub target_info : TargetInfo
target_info = record {
  name = [];
  iqn = [];
  status = [];
  max_sessions = pos 0;
  mapped_luns = [];
  connected_sessions = [];
  network_portals = [];
  target_id = pos 0;
}

abbrev pub snapshot_info : SnapshotInfo
snapshot_info = record {
  name = [];
  uuid = [];
  parent_uuid = [];
  status = [];
  total_size = pos 0;
  create_time = pos 0;
  root_path = [];
}

abbrev pub vol_info : VolInfo
vol_info = record {
  name = [];
  path = [];
  status = [];
  fs_type = [];
  size = [];
  free = [];
  container = [];
  location = [];
}

abbrev pub dsm_info : DsmInfo
dsm_info = record { hostname = [] }

abbrev pub dsm_sys_info : DsmSysInfo
dsm_sys_info = record { model = []; firmware_ver = []; serial = [] }

abbrev pub share_info : ShareInfo
share_info = record {
  name = [];
  vol_path = [];
  desc = [];
  enable_share_cow = false;
  enable_recycle_bin = false;
  recycle_bin_admin_only = false;
  encryption = pos 0;
  quota_for_create = none;
  quota_value_in_mb = pos 0;
  support_snapshot = false;
  uuid = [];
  name_org = [];
}
