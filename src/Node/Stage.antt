-- ===== src/Node/Stage.antt =====
-- pkg/driver/nodeserver.go: NodeStageVolume and NodeUnstageVolume.
use reference_guides.Base.{
  GoString, codes, ◌==◌, trim, is_space, is_empty, Bool, true, false, ◌&&◌, ◌||◌, Option, none,
  some, ◌∷◌, ◌++◌, status, invalid_argument, internal, Exec, fail, pure, lift, or_status, ◌>>=◌,
  ◌>>◌, if◌then◌else◌,
}
use reference_guides.Utils.{protocol_smb, string_to_slice, auth_type_read_write}
use reference_guides.Controller.Types.{StringMap, at_key}
use reference_guides.Node.Server.{NodeServer, StateOf, on_host}
use reference_guides.Node.Target.{get_volume_mount_path, login_target, logout_target}
use reference_guides.Node.Types.{
  VolumeCapability, mount_of, NodeStageVolumeSpec, NodeStageVolumeRequest,
}
use reference_guides.Node.Mounts.{
  create_target_mount_path, ask_not_mount_point, mount_sensitive_retry,
}
use reference_guides.Node.Smb.{
  check_gid_present, gid_options, domain_options, sensitive_options, set_smb_volume_permission,
}

abbrev is_some {ℓ} : {A : Type ℓ} → Option A → Bool
is_some none = false
is_some (some a) = true

-- The spec of a request whose capability is not nil.
unfoldable pub stage_spec_of : NodeStageVolumeRequest → VolumeCapability → NodeStageVolumeSpec
stage_spec_of req capability = record {
  volume_id = req.volume_id;
  staging_target_path = req.staging_target_path;
  volume_capability = capability;
  dsm = at_key req.volume_context (codes "dsm");
  source = at_key req.volume_context (codes "source");
  format_options = at_key req.volume_context (codes "formatOptions");
}

module _ (ns : NodeServer) where
  abbrev State : Type 0
  State = StateOf ns

  unfoldable pub format_and_mount : NodeStageVolumeSpec → GoString → Exec State Unit
  format_and_mount spec path = or_status internal (
      on_host (
        ns.host.format_and_mount path spec.staging_target_path
          (mount_of spec.volume_capability).fs_type
          (codes "rw" ∷ (mount_of spec.volume_capability).mount_flags)
          (string_to_slice spec.format_options)))

  -- What follows on the login to the target.
  unfoldable pub stage_path : NodeStageVolumeSpec → GoString → Exec State Unit
  unfolding format_and_mount
  stage_path spec path = if is_empty path then fail (status internal) else (do
    not_mount ←
        or_status internal (on_host (ns.host.is_likely_not_mount_point spec.staging_target_path))
    if not_mount then format_and_mount spec path else pure tt)

  -- nodeStageISCSIVolume: a block volume is not mounted.
  unfoldable pub node_stage_iscsi_volume : NodeStageVolumeSpec → Exec State Unit
  unfolding login_target get_volume_mount_path stage_path
  node_stage_iscsi_volume spec = if spec.volume_capability.block then pure tt else (do
    iscsi_dev_paths ← or_status internal (login_target ns spec.volume_id)
    path ← on_host (get_volume_mount_path ns.host iscsi_dev_paths)
    stage_path spec path)

  -- The mount of a share, with its gid and its domain.
  unfoldable pub mount_share :
      NodeStageVolumeSpec → GoString → GoString → GoString → Exec State Unit
  unfolding check_gid_present mount_sensitive_retry
  mount_share spec username password domain =
      let m = mount_of spec.volume_capability in
      do
        present ← lift (check_gid_present m.volume_mount_group false m.mount_flags)
        or_status internal (
            on_host (
              mount_sensitive_retry ns.host ns.host.mount_retries spec.source
                spec.staging_target_path (codes "cifs")
                (m.mount_flags
                  ++ (gid_options m.volume_mount_group present ++ domain_options domain))
                (sensitive_options username password)))

  unfoldable pub stage_share :
      NodeStageVolumeSpec → GoString → GoString → GoString → Exec State Unit
  unfolding set_smb_volume_permission create_target_mount_path mount_share
  stage_share spec username password domain = do
    or_status internal (set_smb_volume_permission ns spec.source username auth_type_read_write)
    not_mount ←
        or_status internal
          (on_host (create_target_mount_path ns.host spec.staging_target_path false))
    if not_mount then mount_share spec username password domain else pure tt

  -- nodeStageSMBVolume
  unfoldable pub node_stage_smb_volume : NodeStageVolumeSpec → Option StringMap → Exec State Unit
  unfolding stage_share
  node_stage_smb_volume spec secrets =
      if spec.volume_capability.block
      then fail (status invalid_argument)
      else if is_empty spec.source
      then fail (status invalid_argument)
      else elim secrets [
        | none ↦ fail (status invalid_argument)
        | some m ↦
            stage_share spec (trim is_space (at_key m (codes "username")))
              (trim is_space (at_key m (codes "password")))
              (trim is_space (at_key m (codes "domain")))
      ]

  unfoldable pub stage_with : NodeStageVolumeRequest → VolumeCapability → Exec State Unit
  unfolding node_stage_iscsi_volume node_stage_smb_volume stage_spec_of
  stage_with req capability =
      if capability.block && is_some capability.mount
      then fail (status invalid_argument)
      else if at_key req.volume_context (codes "protocol") == protocol_smb
      then node_stage_smb_volume (stage_spec_of req capability) req.secrets
      else node_stage_iscsi_volume (stage_spec_of req capability)

  -- NodeStageVolume
  unfoldable pub handle_node_stage_volume : NodeStageVolumeRequest → Exec State Unit
  unfolding stage_with
  handle_node_stage_volume req =
      if is_empty req.volume_id || is_empty req.staging_target_path
      then fail (status invalid_argument)
      else elim req.volume_capability [
        | none ↦ fail (status invalid_argument)
        | some capability ↦ stage_with req capability
      ]

  unfoldable pub unmount_staged : GoString → Exec State Unit
  unmount_staged path = do
    not_mount ← or_status internal (on_host (ask_not_mount_point ns.host path))
    if not_mount then pure tt else or_status internal (on_host (ns.host.unmount path))

  -- NodeUnstageVolume: the volume id and the staging path.
  unfoldable pub handle_node_unstage_volume : GoString → GoString → Exec State Unit
  unfolding unmount_staged logout_target
  handle_node_unstage_volume volume_id staging_target_path =
      if is_empty volume_id
      then fail (status invalid_argument)
      else if is_empty staging_target_path
      then fail (status invalid_argument)
      else (unmount_staged staging_target_path >> logout_target ns volume_id)
