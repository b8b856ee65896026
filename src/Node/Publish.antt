-- ===== src/Node/Publish.antt =====
-- pkg/driver/nodeserver.go: NodePublishVolume and NodeUnpublishVolume.
use reference_guides.Base.{
  GoString, codes, ◌==◌, is_empty, Bool, true, false, ◌||◌, Option, none, some, List, [], ◌∷◌,
  status, invalid_argument, internal, Result, ok, err, errorf, Exec, fail, pure, or_status, ◌>>=◌,
  ◌>>◌, if◌then◌else◌,
}
use reference_guides.Utils.{protocol_smb}
use reference_guides.Controller.Types.{StringMap, at_key}
use reference_guides.Node.Host.{FileError, not_exist, other_error}
use reference_guides.Node.Server.{NodeServer, StateOf, on_host}
use reference_guides.Node.Target.{get_volume_mount_path, login_target}
use reference_guides.Node.Types.{VolumeCapability, mount_of}
use reference_guides.Node.Mounts.{create_target_mount_path, ask_not_mount_point}

pub record NodePublishVolumeRequest : Type 0 where
  pub volume_id : GoString
  pub target_path : GoString
  pub staging_target_path : GoString
  pub volume_capability : Option VolumeCapability
  pub readonly : Bool
  pub volume_context : StringMap

abbrev pub publish_options : NodePublishVolumeRequest → List GoString
publish_options req = codes "bind" ∷ (if req.readonly then codes "ro" ∷ [] else [])

-- Whether os.Stat finds the path, does not, or fails otherwise.
abbrev pub stat_of : Option FileError → Result Bool
stat_of none = ok true
stat_of (some not_exist) = ok false
stat_of (some other_error) = err errorf

module _ (ns : NodeServer) where
  abbrev State : Type 0
  State = StateOf ns

  unfoldable pub bind_mount : NodePublishVolumeRequest → GoString → GoString → Exec State Unit
  bind_mount req source fs_type =
      or_status internal
        (on_host (ns.host.mount source req.target_path fs_type (publish_options req)))

  -- A block device is bound itself, a file system from where it is staged.
  unfoldable pub publish_path :
      NodePublishVolumeRequest → VolumeCapability → GoString → Exec State Unit
  unfolding bind_mount
  publish_path req capability path =
      if is_empty path
      then fail (status internal)
      else if capability.block
      then bind_mount req path []
      else bind_mount req req.staging_target_path (mount_of capability).fs_type

  unfoldable pub publish_iscsi : NodePublishVolumeRequest → VolumeCapability → Exec State Unit
  unfolding login_target get_volume_mount_path publish_path
  publish_iscsi req capability = do
    iscsi_dev_paths ← or_status internal (login_target ns req.volume_id)
    path ← on_host (get_volume_mount_path ns.host iscsi_dev_paths)
    publish_path req capability path

  unfoldable pub publish_mount : NodePublishVolumeRequest → VolumeCapability → Exec State Unit
  unfolding publish_iscsi
  publish_mount req capability =
      if at_key req.volume_context (codes "protocol") == protocol_smb
      then bind_mount req req.staging_target_path []
      else publish_iscsi req capability

  unfoldable pub publish_with : NodePublishVolumeRequest → VolumeCapability → Exec State Unit
  unfolding create_target_mount_path publish_mount
  publish_with req capability = do
    not_mount ←
        or_status internal
          (on_host (create_target_mount_path ns.host req.target_path capability.block))
    if not_mount then publish_mount req capability else pure tt

  -- NodePublishVolume
  unfoldable pub handle_node_publish_volume : NodePublishVolumeRequest → Exec State Unit
  unfolding publish_with
  handle_node_publish_volume req =
      if is_empty req.volume_id || is_empty req.target_path || is_empty req.staging_target_path
      then fail (status invalid_argument)
      else elim req.volume_capability [
        | none ↦ fail (status invalid_argument)
        | some capability ↦ publish_with req capability
      ]

  -- os.Stat
  unfoldable pub stat_path : GoString → Exec State Bool
  stat_path path = on_host (λ h. let (r, h') = ns.host.stat path h in (stat_of r, h'))

  unfoldable pub unmount_and_remove : GoString → Exec State Unit
  unmount_and_remove path = do
    or_status internal (on_host (ns.host.unmount path))
    or_status internal (on_host (ns.host.remove path))

  unfoldable pub unpublish_path : GoString → Exec State Unit
  unfolding unmount_and_remove
  unpublish_path path = do
    not_mount ← or_status internal (on_host (ask_not_mount_point ns.host path))
    if not_mount then pure tt else unmount_and_remove path

  -- NodeUnpublishVolume: the volume id and the target path.
  unfoldable pub handle_node_unpublish_volume : GoString → GoString → Exec State Unit
  unfolding stat_path unpublish_path
  handle_node_unpublish_volume volume_id target_path =
      if is_empty volume_id
      then fail (status invalid_argument)
      else if is_empty target_path
      then fail (status invalid_argument)
      else (do
        there ← or_status internal (stat_path target_path)
        if there then unpublish_path target_path else pure tt)
