-- ===== src/Service/Iscsi.antt =====
-- pkg/dsm/service/dsm.go: making a LUN with its target, from nothing, from a snapshot or from a LUN.
pub mod Cloning
use reference_guides.Base.{
  ℕ, zero, suc, ℤ, pos, eqb_ℤ, int64, itoa, GoString, ◌==◌, Bool, ◌&&◌, not, [], ◌∷◌, errorf,
  status, internal, invalid_argument, out_of_range, Result, Exec, pure, fail, attempt, or_fail,
  lift, tolerate_existing, ◌>>=◌, ◌>>◌, if◌then◌else◌,
}
use reference_guides.WebApi.Types.{LunInfo, TargetInfo}
use reference_guides.WebApi.Session.{Dsm}
use reference_guides.Backend.{Backend}
use reference_guides.Models.{CreateK8sVolumeSpec, K8sVolumeRespSpec, K8sSnapshotRespSpec}
use reference_guides.Service.Convert.{dsm_lun_to_k8s_volume}
use reference_guides.Service.Location.{
  first_available, get_lun_type_by_input_params, gen_target_iqn,
}

module _ (B : Backend) where
  open B use {
    State, volume_list, volume_get, dsm_info_get, target_create, target_get, target_set,
    lun_map_target, lun_create, lun_get, lun_clone, snapshot_clone, retries,
  }

  -- `if spec.MultipleSession == true`: no limit on the sessions of the target.
  unfoldable pub set_sessions : CreateK8sVolumeSpec → GoString → Dsm → Exec State Unit
  set_sessions spec target_id dsm =
      if spec.multiple_session
      then or_fail (status internal) (target_set target_id (pos 0) dsm)
      else pure tt

  -- createMappingTarget
  unfoldable pub create_mapping_target :
      Dsm → CreateK8sVolumeSpec → GoString → Exec State TargetInfo
  create_mapping_target dsm spec lun_uuid = do
    info ← or_fail (status internal) (dsm_info_get dsm)
    created ← attempt (
        target_create
          (record {
            name = spec.target_name;
            iqn = gen_target_iqn info.hostname spec.k8s_volume_name;
          })
          dsm)
    tolerate_existing internal created
    target ← or_fail (status internal) (target_get spec.target_name dsm)
    set_sessions spec (itoa target.target_id) dsm
    or_fail (status internal) (lun_map_target (itoa target.target_id ∷ []) lun_uuid dsm)
    pure target

  -- getFirstAvailableVolume
  unfoldable pub get_first_available_volume : Dsm → ℤ → Exec State GoString
  get_first_available_volume dsm size_in_bytes = do
    vol_infos ← volume_list dsm
    vol ← lift (first_available size_in_bytes vol_infos)
    pure vol.path

  -- Step 1 of createVolumeByDsm and createSMBVolumeByDsm, which writes to the caller's spec.
  unfoldable pub choose_location : Dsm → CreateK8sVolumeSpec → Exec State CreateK8sVolumeSpec
  choose_location dsm spec =
      if spec.location == []
      then (do
        path ← or_fail (status internal) (get_first_available_volume dsm spec.size)
        pure (record spec { location = path }))
      else pure spec

  -- The last steps of the three ways to make a LUN: its target, and the volume that is returned.
  unfoldable pub map_lun : Dsm → CreateK8sVolumeSpec → LunInfo → Exec State K8sVolumeRespSpec
  map_lun dsm spec lun = do
    target ← or_fail (status internal) (create_mapping_target dsm spec lun.uuid)
    pure (dsm_lun_to_k8s_volume dsm.ip lun target)

  -- Steps 2 to 4 of createVolumeByDsm.
  unfoldable pub create_lun_at : Dsm → CreateK8sVolumeSpec → Exec State K8sVolumeRespSpec
  create_lun_at dsm spec = do
    vol ← or_fail (status invalid_argument) (volume_get spec.location dsm)
    lun_type ←
        or_fail (status invalid_argument)
          (lift (get_lun_type_by_input_params spec.lun_type spec.thin_provisioning vol.fs_type))
    created ← attempt (
        lun_create
          (record {
            name = spec.lun_name;
            description = spec.lun_description;
            location = spec.location;
            size = spec.size;
            lun_type = lun_type;
            dev_attribs = [];
          })
          dsm)
    tolerate_existing internal created
    lun ← or_fail (status internal) (lun_get spec.lun_name dsm)
    map_lun dsm spec lun

  -- One round of waitCloneFinished: true where the LUN is still locked. An error is permanent.
  unfoldable pub is_still_cloning : GoString → Dsm → Exec State Bool
  is_still_cloning lun_name dsm = do
    lun ← or_fail errorf (lun_get lun_name dsm)
    pure lun.is_action_locked

  -- waitCloneFinished, with the number of retries that the backoff still allows.
  unfoldable pub wait_clone_finished : ℕ → GoString → Dsm → Exec State Unit
  wait_clone_finished zero lun_name dsm = do
    locked ← is_still_cloning lun_name dsm
    if locked then fail errorf else pure tt
  wait_clone_finished (suc n) lun_name dsm = do
    locked ← is_still_cloning lun_name dsm
    if locked then wait_clone_finished n lun_name dsm else pure tt

  -- What follows a clone: wait, read the LUN and map it.
  unfoldable pub finish_clone :
      Dsm → CreateK8sVolumeSpec → Result GoString → Exec State K8sVolumeRespSpec
  finish_clone dsm spec cloned = do
    tolerate_existing internal cloned
    or_fail (status internal) (wait_clone_finished retries spec.lun_name dsm)
    lun ← or_fail (status internal) (lun_get spec.lun_name dsm)
    map_lun dsm spec lun

  -- `spec.Size != 0 && spec.Size != size`
  abbrev pub wants_other_size : CreateK8sVolumeSpec → ℤ → Bool
  wants_other_size spec size = not (eqb_ℤ spec.size (pos 0)) && not (eqb_ℤ spec.size size)

  -- createVolumeBySnapshot
  unfoldable pub create_volume_by_snapshot :
      Dsm → CreateK8sVolumeSpec → K8sSnapshotRespSpec → Exec State K8sVolumeRespSpec
  create_volume_by_snapshot dsm spec src =
      if wants_other_size spec src.size_in_bytes then fail (status out_of_range) else (do
        cloned ← attempt (
            snapshot_clone
              (record {
                name = spec.lun_name;
                src_lun_uuid = src.parent_uuid;
                src_snapshot_uuid = src.uuid;
              })
              dsm)
        finish_clone dsm spec cloned)

  -- createVolumeByVolume
  unfoldable pub create_volume_by_volume :
      Dsm → CreateK8sVolumeSpec → LunInfo → Exec State K8sVolumeRespSpec
  create_volume_by_volume dsm spec src =
      if wants_other_size spec (int64 src.size) then fail (status out_of_range) else (do
        let location = if spec.location == [] then src.location else spec.location
        cloned ← attempt (
            lun_clone
              (record { name = spec.lun_name; src_lun_uuid = src.uuid; location = location }) dsm)
        finish_clone dsm (record spec { location = location }) cloned)
