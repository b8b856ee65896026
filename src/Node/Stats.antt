-- ===== src/Node/Stats.antt =====
-- pkg/driver/nodeserver.go: NodeGetVolumeStats, NodeExpandVolume, NodeGetInfo and NodeGetCapabilities.
pub mod Unchecked
use reference_guides.Base.{
  ℤ, pos, int64, sub64, times64, GoString, ◌==◌, is_empty, file_path_base, Bool, false, ◌||◌,
  Option, none, some, List, [], ◌∷◌, status, invalid_argument, not_found, internal, Result, ok, err,
  Exec, fail, pure, lift, or_status, ◌>>=◌, ◌>>◌, if◌then◌else◌,
}
use reference_guides.Utils.{protocol_smb}
use reference_guides.Models.{K8sVolumeRespSpec}
use reference_guides.Driver.{Driver, Capability}
use reference_guides.Controller.Types.{CapacityRange, get_size_by_capacity_range}
use reference_guides.Node.Host.{Statfs}
use reference_guides.Node.Sessions.{rescan}
use reference_guides.Node.Multipath.{multipath_resize}
use reference_guides.Node.Server.{NodeServer, StateOf, on_service, on_host, always}
use reference_guides.Node.Target.{mapping_index_of, get_existed_volume_mount_path, is_multipath}
use reference_guides.Node.Types.{VolumeCapability}
use reference_guides.Node.Mounts.{ask_not_mount_point}

-- VolumeUsage_Unit
pub data UsageUnit : Type 0 where
  bytes inodes : UsageUnit

pub record VolumeUsage : Type 0 where
  pub available : ℤ
  pub total : ℤ
  pub used : ℤ
  pub unit : UsageUnit

-- The usage of a share: its size alone.
abbrev pub share_usage : K8sVolumeRespSpec → List VolumeUsage
share_usage v =
    (record { available = pos 0; total = v.size_in_bytes; used = pos 0; unit = bytes }) ∷ []

-- The usage of a file system, from statfs; the conversions of uint64 to int64 and the operations wrap.
unfoldable pub usage_of : Statfs → List VolumeUsage
usage_of st =
    (record {
      available = times64 (int64 st.bavail) st.bsize;
      total = times64 (int64 st.blocks) st.bsize;
      used = times64 (sub64 (int64 st.blocks) (int64 st.bfree)) st.bsize;
      unit = bytes;
    })
    ∷ (record {
      available = int64 st.ffree;
      total = int64 st.files;
      used = sub64 (int64 st.files) (int64 st.ffree);
      unit = inodes;
    })
    ∷ []

-- The value beside an error of getSizeByCapacityRange is 0, and NodeExpandVolume looks at no error.
abbrev pub size_or_zero : Result ℤ → ℤ
size_or_zero (ok size) = size
size_or_zero (err e) = pos 0

pub record NodeExpandVolumeRequest : Type 0 where
  pub volume_id : GoString
  pub volume_path : GoString
  pub capacity_range : Option CapacityRange
  pub volume_capability : Option VolumeCapability

-- `cap != nil && cap.GetBlock() != nil`
abbrev pub is_block : Option VolumeCapability → Bool
is_block none = false
is_block (some capability) = capability.block

-- NodeGetInfo: the node id.
unfoldable pub handle_node_get_info : Driver → GoString
handle_node_get_info d = d.node_id

-- NodeGetCapabilities
unfoldable pub handle_node_get_capabilities : Driver → List Capability
handle_node_get_capabilities d = d.ns_cap

module _ (ns : NodeServer) where
  abbrev State : Type 0
  State = StateOf ns

  -- The volume of an id, where the service has it.
  unfoldable pub found_volume : GoString → Exec State K8sVolumeRespSpec
  found_volume volume_id = do
    found ← on_service (always (ns.service.get_volume volume_id))
    elim found [ none ↦ fail (status not_found) | some v ↦ pure v ]

  stats_of : GoString → K8sVolumeRespSpec → Exec State (List VolumeUsage)
  unfolding usage_of
  stats_of volume_path v =
      if v.protocol == protocol_smb
      then pure (share_usage v)
      else (do st ← or_status internal (on_host (ns.host.statfs volume_path)); pure (usage_of st))

  -- NodeGetVolumeStats: the volume id and the volume path.
  unfoldable pub handle_node_get_volume_stats : GoString → GoString → Exec State (List VolumeUsage)
  unfolding found_volume stats_of
  handle_node_get_volume_stats volume_id volume_path =
      if is_empty volume_id || is_empty volume_path then fail (status invalid_argument) else (do
        v ← found_volume volume_id
        not_mount ← or_status not_found (on_host (ask_not_mount_point ns.host volume_path))
        if not_mount then fail (status not_found) else stats_of volume_path v)

  unfoldable pub resize_mapper : GoString → Exec State Unit
  unfolding is_multipath multipath_resize file_path_base
  resize_mapper path = do
    multipath ← is_multipath ns path
    if multipath
        then or_status internal (on_host (multipath_resize ns.host (file_path_base path)))
        else pure tt

  unfoldable pub resize_file_system : GoString → GoString → Exec State Unit
  resize_file_system path volume_path = do
    done ← or_status internal (on_host (ns.host.resize_fs path volume_path))
    if done then pure tt else fail (status internal)

  unfoldable pub expand_path : NodeExpandVolumeRequest → GoString → Exec State Unit
  unfolding resize_mapper resize_file_system
  expand_path req path = if is_empty path then fail (status internal) else (do
    resize_mapper path
    if is_block req.volume_capability then pure tt else resize_file_system path req.volume_path)

  unfoldable pub expand_lun : NodeExpandVolumeRequest → K8sVolumeRespSpec → Exec State Unit
  unfolding rescan mapping_index_of get_existed_volume_mount_path expand_path
  expand_lun req v = do
    or_status internal (on_host (rescan ns.host v.target.iqn))
    mapping_index ← lift (mapping_index_of v.target)
    path ← on_host (get_existed_volume_mount_path ns.host v.target.iqn mapping_index)
    expand_path req path

  -- NodeExpandVolume: the capacity.
  unfoldable pub handle_node_expand_volume : NodeExpandVolumeRequest → Exec State ℤ
  unfolding found_volume expand_lun
  handle_node_expand_volume req =
      if is_empty req.volume_id || is_empty req.volume_path
      then fail (status invalid_argument)
      else (do
        v ← found_volume req.volume_id
        (if v.protocol == protocol_smb then pure tt else expand_lun req v)
        pure (size_or_zero (get_size_by_capacity_range req.capacity_range)))
