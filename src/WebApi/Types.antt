-- ===== src/WebApi/Types.antt =====
-- pkg/dsm/webapi/*.go: the records that the web API of a DSM answers with, and those of its requests.
use reference_guides.Base.{ℕ, ℤ, GoString, Bool, Option, List}

pub record LunInfo : Type 0 where
  pub name : GoString
  pub uuid : GoString
  pub lun_type : ℤ
  pub location : GoString
  -- `size` and `used` are uint64.
  pub size : ℕ
  pub used : ℕ
  pub status : GoString
  pub flashcache_status : GoString
  pub is_action_locked : Bool

pub record MappedLun : Type 0 where
  pub lun_uuid : GoString
  pub mapping_index : ℤ

pub record ConnectedSession : Type 0 where
  pub iqn : GoString
  pub ip : GoString

pub record NetworkPortal : Type 0 where
  pub controller_id : ℤ
  pub interface_name : GoString

pub record TargetInfo : Type 0 where
  pub name : GoString
  pub iqn : GoString
  pub status : GoString
  pub max_sessions : ℤ
  pub mapped_luns : List MappedLun
  pub connected_sessions : List ConnectedSession
  pub network_portals : List NetworkPortal
  pub target_id : ℤ

pub record SnapshotInfo : Type 0 where
  pub name : GoString
  pub uuid : GoString
  pub parent_uuid : GoString
  pub status : GoString
  pub total_size : ℤ
  pub create_time : ℤ
  pub root_path : GoString

pub record LunDevAttrib : Type 0 where
  pub dev_attrib : GoString
  pub enable : ℤ

pub record LunCreateSpec : Type 0 where
  pub name : GoString
  pub description : GoString
  pub location : GoString
  pub size : ℤ
  pub lun_type : GoString
  pub dev_attribs : List LunDevAttrib

-- `new_size` is a uint64.
pub record LunUpdateSpec : Type 0 where
  pub uuid : GoString
  pub new_size : ℕ

pub record LunCloneSpec : Type 0 where
  pub name : GoString
  pub src_lun_uuid : GoString
  pub location : GoString

pub record TargetCreateSpec : Type 0 where
  pub name : GoString
  pub iqn : GoString

pub record SnapshotCreateSpec : Type 0 where
  pub name : GoString
  pub lun_uuid : GoString
  pub description : GoString
  pub taken_by : GoString
  pub is_locked : Bool

pub record SnapshotCloneSpec : Type 0 where
  pub name : GoString
  pub src_lun_uuid : GoString
  pub src_snapshot_uuid : GoString

pub record VolInfo : Type 0 where
  pub name : GoString
  pub path : GoString
  pub status : GoString
  pub fs_type : GoString
  pub size : GoString
  pub free : GoString
  pub container : GoString
  pub location : GoString

pub record DsmInfo : Type 0 where
  pub hostname : GoString

pub record DsmSysInfo : Type 0 where
  pub model : GoString
  pub firmware_ver : GoString
  pub serial : GoString

pub record NetworkInterface : Type 0 where
  pub ifname : GoString
  pub ip : GoString
  pub mask : GoString
  pub speed : ℤ
  pub status : GoString
  pub interface_type : GoString
  pub use_dhcp : Bool

-- `quota_for_create` is a pointer that may be nil.
pub record ShareInfo : Type 0 where
  pub name : GoString
  pub vol_path : GoString
  pub desc : GoString
  pub enable_share_cow : Bool
  pub enable_recycle_bin : Bool
  pub recycle_bin_admin_only : Bool
  pub encryption : ℤ
  pub quota_for_create : Option ℤ
  pub quota_value_in_mb : ℤ
  pub support_snapshot : Bool
  pub uuid : GoString
  pub name_org : GoString

pub record ShareUpdateInfo : Type 0 where
  pub name : GoString
  pub vol_path : GoString
  pub quota_for_create : Option ℤ

pub record ShareSnapshotInfo : Type 0 where
  pub uuid : GoString
  pub time : GoString
  pub desc : GoString
  pub snap_size : GoString
  pub lock : Bool
  pub schedule_snapshot : Bool

pub record ShareCreateSpec : Type 0 where
  pub name : GoString
  pub share_info : ShareInfo

pub record ShareCloneSpec : Type 0 where
  pub name : GoString
  pub snapshot : GoString
  pub share_info : ShareInfo

pub record ShareSnapshotCreateSpec : Type 0 where
  pub share_name : GoString
  pub desc : GoString
  pub is_locked : Bool

pub record SharePermission : Type 0 where
  pub name : GoString
  pub is_readonly : Bool
  pub is_writable : Bool
  pub is_deny : Bool
  pub is_custom : Bool
  pub is_admin : Bool

pub record SharePermissionSetSpec : Type 0 where
  pub name : GoString
  pub user_group_type : GoString
  pub permissions : List SharePermission
