-- ===== src/Node/Mounted/Staging.antt =====
-- pkg/driver/nodeserver.go: what NodeStageVolume does to the mounts.
use reference_guides.Base.{is_empty, Option, none, some, status, invalid_argument, Exec, fail, ◌||◌}
use reference_guides.Node.Server.{NodeServer, StateOf}
use reference_guides.Node.Types.{VolumeCapability}
use reference_guides.Node.Mounted.Tables.{MountTable}
use reference_guides.Node.Mounted.Rules.{Does, fail-Does, if-Does}
use reference_guides.Node.Stats.{is_block}
use reference_guides.Node.Types.{NodeStageVolumeRequest}
use reference_guides.Node.Stage.{stage_with, stage_spec_of, handle_node_stage_volume}
use reference_guides.Node.Mounted.Tables.{Stages}
use reference_guides.Node.Mounted.Lun.{stages_fail, StagesFor, stages_for_fail, stage_iscsi-Does}
use reference_guides.Node.Mounted.Share.{stage_smb-Does}

module _ (ns : NodeServer) (T : MountTable ns.host) where
  abbrev S : Type 0
  S = ns.service.State

  stage_with-Does :
      (req : NodeStageVolumeRequest) (capability : VolumeCapability)
      → Does S ns.host T
          (StagesFor capability.block req.staging_target_path)
          (stage_with ns req capability)
  unfolding stage_with stage_spec_of
  stage_with-Does req capability =
      let P = StagesFor capability.block req.staging_target_path in
      if-Does S ns.host T P _ (fail (status invalid_argument)) _
        (fail-Does S ns.host T P (status invalid_argument)
          (stages_for_fail capability.block req.staging_target_path))
        (if-Does S ns.host T P _ _ _
          (stage_smb-Does ns T (stage_spec_of req capability) req.secrets)
          (stage_iscsi-Does ns T (stage_spec_of req capability)))

  stage_checked :
      (req : NodeStageVolumeRequest) (o : Option VolumeCapability)
      → Does S ns.host T
          (StagesFor (is_block o) req.staging_target_path)
          (elim o as (λ x. Exec (StateOf ns) Unit) [
            | none ↦ fail (status invalid_argument)
            | some capability ↦ stage_with ns req capability
          ])
  stage_checked req none =
      fail-Does S ns.host T (Stages req.staging_target_path) (status invalid_argument)
        (stages_fail req.staging_target_path)
  stage_checked req (some capability) = stage_with-Does req capability

  pub stage-Does :
      (req : NodeStageVolumeRequest)
      → Does S ns.host T
          (StagesFor (is_block req.volume_capability) req.staging_target_path)
          (handle_node_stage_volume ns req)
  unfolding handle_node_stage_volume
  stage-Does req =
      let P = StagesFor (is_block req.volume_capability) req.staging_target_path in
      if-Does S ns.host T P (is_empty req.volume_id || is_empty req.staging_target_path)
        (fail (status invalid_argument)) _
        (fail-Does S ns.host T P (status invalid_argument)
          (stages_for_fail (is_block req.volume_capability) req.staging_target_path))
        (stage_checked req req.volume_capability)
