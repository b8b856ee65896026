-- ===== src/Node/Types.antt =====
-- pkg/driver/nodeserver.go: the CSI messages that the node server reads, and NodeStageVolumeSpec of
-- pkg/models/dsm_req_spec.go.
use reference_guides.Base.{GoString, Bool, Option, none, some, List, []}
use reference_guides.Controller.Types.{StringMap}

-- csi.VolumeCapability_MountVolume
pub record MountVolume : Type 0 where
  pub fs_type : GoString
  pub mount_flags : List GoString
  pub volume_mount_group : GoString

-- csi.VolumeCapability: whether GetBlock() is not nil, and GetMount().
pub record VolumeCapability : Type 0 where
  pub block : Bool
  pub mount : Option MountVolume

-- The getters give the zero value where GetMount() is nil.
abbrev no_mount : MountVolume
no_mount = record { fs_type = []; mount_flags = []; volume_mount_group = [] }

abbrev pub mount_of : VolumeCapability → MountVolume
mount_of cap = elim cap.mount [ none ↦ no_mount | some m ↦ m ]

-- NodeStageVolumeSpec; its field Dsm is read nowhere.
pub record NodeStageVolumeSpec : Type 0 where
  pub volume_id : GoString
  pub staging_target_path : GoString
  pub volume_capability : VolumeCapability
  pub dsm : GoString
  pub source : GoString
  pub format_options : GoString

pub record NodeStageVolumeRequest : Type 0 where
  pub volume_id : GoString
  pub staging_target_path : GoString
  pub volume_capability : Option VolumeCapability
  pub volume_context : StringMap
  -- none for a nil map
  pub secrets : Option StringMap
