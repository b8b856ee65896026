-- ===== src/Service/Snapshots.antt =====
-- pkg/dsm/service/dsm.go and share_volume.go: listing, finding, taking and deleting snapshots.
pub mod Owned
pub mod Taken
use reference_guides.Base.{
  GoString, ◌==◌, ◌&&◌, ◌++◌, find, map, Option, none, some, List, [], ◌∷◌, Error, status, internal,
  invalid_argument, not_found, resource_exhausted, out_of_free_space_error,
  snapshot_reach_max_count_error, Result, ok, err, Exec, if◌then◌else◌,
}
use reference_guides.Utils.{protocol_smb, protocol_iscsi}
use reference_guides.WebApi.Session.{Dsm}
use reference_guides.Backend.{Backend}
use reference_guides.Models.{
  K8sVolumeRespSpec, K8sSnapshotRespSpec, CreateK8sVolumeSnapshotSpec, share_snapshot_desc_prefix,
}
use reference_guides.Service.Convert.{
  dsm_lun_snapshot_to_k8s_snapshot, dsm_share_snapshot_to_k8s_snapshot,
}
use reference_guides.Service.Registry.{Dsms, get_dsm}
use reference_guides.Service.Listing.{listed, list_iscsi_volumes, list_smb_volumes, get_volume}

module _ (B : Backend) where
  open B use {
    State, snapshot_list, snapshot_create, snapshot_delete, snapshot_get, share_snapshot_list,
    share_snapshot_create, share_snapshot_delete, parse_time,
  }

  unfoldable pub lun_snapshots :
      Dsm → List K8sVolumeRespSpec → State → List K8sSnapshotRespSpec × State
  lun_snapshots dsm [] s = ([], s)
  lun_snapshots dsm (v ∷ volumes) s =
      let (r, s') = snapshot_list v.lun.uuid dsm s in
      let (more, s'') = lun_snapshots dsm volumes s' in
      (map (λ info. dsm_lun_snapshot_to_k8s_snapshot dsm.ip info v.lun) (listed r) ++ more, s'')

  -- listISCSISnapshotsByDsm
  unfoldable pub list_iscsi_snapshots_by_dsm : Dsms → Dsm → State → List K8sSnapshotRespSpec × State
  list_iscsi_snapshots_by_dsm dsms dsm s =
      let (volumes, s') = list_iscsi_volumes B dsms dsm.ip s in lun_snapshots dsm volumes s'

  unfoldable pub share_snapshots :
      Dsm → List K8sVolumeRespSpec → State → List K8sSnapshotRespSpec × State
  share_snapshots dsm [] s = ([], s)
  share_snapshots dsm (v ∷ volumes) s =
      let (r, s') = share_snapshot_list v.share.name dsm s in
      let (more, s'') = share_snapshots dsm volumes s' in
      (
        map (λ info. dsm_share_snapshot_to_k8s_snapshot parse_time dsm.ip info v.share) (listed r)
            ++ more,
        s'',
      )

  -- listSMBSnapshotsByDsm
  unfoldable pub list_smb_snapshots_by_dsm : Dsms → Dsm → State → List K8sSnapshotRespSpec × State
  list_smb_snapshots_by_dsm dsms dsm s =
      let (volumes, s') = list_smb_volumes B dsms dsm.ip s in share_snapshots dsm volumes s'

  -- The loop of ListAllSnapshots over the DSMs that are left.
  unfoldable pub snapshots_of : Dsms → Dsms → State → List K8sSnapshotRespSpec × State
  snapshots_of dsms [] s = ([], s)
  snapshots_of dsms (dsm ∷ rest) s =
      let (luns, s₁) = list_iscsi_snapshots_by_dsm dsms dsm s in
      let (shares, s₂) = list_smb_snapshots_by_dsm dsms dsm s₁ in
      let (more, s₃) = snapshots_of dsms rest s₂ in (luns ++ (shares ++ more), s₃)

  -- ListAllSnapshots
  unfoldable pub list_all_snapshots : Dsms → State → List K8sSnapshotRespSpec × State
  list_all_snapshots dsms s = snapshots_of dsms dsms s

  -- GetSnapshotByName
  unfoldable pub get_snapshot_by_name : Dsms → GoString → State → Option K8sSnapshotRespSpec × State
  get_snapshot_by_name dsms name s =
      let (snaps, s') = list_all_snapshots dsms s in (find (λ snap. snap.name == name) snaps, s')

  -- GetSnapshotByUuid
  unfoldable pub get_snapshot_by_uuid : Dsms → GoString → State → Option K8sSnapshotRespSpec × State
  get_snapshot_by_uuid dsms uuid s =
      let (snaps, s') = list_all_snapshots dsms s in (find (λ snap. snap.uuid == uuid) snaps, s')

  abbrev pub found_or :
      (State → Option K8sSnapshotRespSpec × State)
      → Option K8sSnapshotRespSpec × State
      → Option K8sSnapshotRespSpec × State
  found_or next (some snap, s) = (some snap, s)
  found_or next (none, s) = next s

  -- getISCSISnapshot, over the DSMs that are left.
  unfoldable pub get_iscsi_snapshot :
      Dsms → Dsms → GoString → State → Option K8sSnapshotRespSpec × State
  get_iscsi_snapshot dsms [] uuid s = (none, s)
  get_iscsi_snapshot dsms (dsm ∷ rest) uuid s =
      let (snaps, s') = list_iscsi_snapshots_by_dsm dsms dsm s in
      found_or (λ t. get_iscsi_snapshot dsms rest uuid t)
        (find (λ snap. snap.uuid == uuid) snaps, s')

  -- getSMBSnapshot, over the DSMs that are left.
  unfoldable pub get_smb_snapshot :
      Dsms → Dsms → GoString → State → Option K8sSnapshotRespSpec × State
  get_smb_snapshot dsms [] uuid s = (none, s)
  get_smb_snapshot dsms (dsm ∷ rest) uuid s =
      let (snaps, s') = list_smb_snapshots_by_dsm dsms dsm s in
      found_or (λ t. get_smb_snapshot dsms rest uuid t) (find (λ snap. snap.uuid == uuid) snaps, s')

  -- ListSnapshots
  unfoldable pub snapshots_on :
      Dsm → K8sVolumeRespSpec → GoString → State → List K8sSnapshotRespSpec × State
  snapshots_on dsm v vol_id s =
      if v.protocol == protocol_iscsi
      then (
        map (λ info. dsm_lun_snapshot_to_k8s_snapshot dsm.ip info v.lun)
            (listed (snapshot_list vol_id dsm s).0),
        (snapshot_list vol_id dsm s).1,
      )
      else (
        map (λ info. dsm_share_snapshot_to_k8s_snapshot parse_time dsm.ip info v.share)
            (listed (share_snapshot_list v.share.name dsm s).0),
        (share_snapshot_list v.share.name dsm s).1,
      )

  unfoldable pub snapshots_of_found :
      Dsms → GoString → Option K8sVolumeRespSpec × State → List K8sSnapshotRespSpec × State
  snapshots_of_found dsms vol_id (none, s) = ([], s)
  snapshots_of_found dsms vol_id (some v, s) = elim (get_dsm dsms v.dsm_ip) [
    | none ↦ ([], s)
    | some dsm ↦ snapshots_on dsm v vol_id s
  ]

  unfoldable pub list_snapshots : Dsms → GoString → State → List K8sSnapshotRespSpec × State
  list_snapshots dsms vol_id s = snapshots_of_found dsms vol_id (get_volume B dsms vol_id s)

  abbrev pub or_not_found : Option K8sSnapshotRespSpec × State → Result K8sSnapshotRespSpec × State
  or_not_found (none, s) = (err (status not_found), s)
  or_not_found (some snap, s) = (ok snap, s)

  -- A full DSM is told apart from the other failures.
  abbrev pub snapshot_error : Error → Error
  snapshot_error out_of_free_space_error = status resource_exhausted
  snapshot_error snapshot_reach_max_count_error = status resource_exhausted
  snapshot_error _ = status internal

  unfoldable pub take_lun_snapshot :
      Dsms
      → CreateK8sVolumeSnapshotSpec
      → Result GoString × State
      → Result K8sSnapshotRespSpec × State
  take_lun_snapshot dsms spec (err e, s) = (err (snapshot_error e), s)
  take_lun_snapshot dsms spec (ok uuid, s) = or_not_found (get_iscsi_snapshot dsms dsms uuid s)

  unfoldable pub take_share_snapshot :
      Dsms
      → Dsm
      → CreateK8sVolumeSnapshotSpec
      → Result GoString × State
      → Result K8sSnapshotRespSpec × State
  take_share_snapshot dsms dsm spec (err e, s) = (err (status internal), s)
  take_share_snapshot dsms dsm spec (ok snapshot_time, s) =
      let (snaps, s') = list_smb_snapshots_by_dsm dsms dsm s in
      or_not_found (
        find (λ snap. snap.time == snapshot_time && snap.parent_uuid == spec.k8s_volume_id) snaps,
        s',
      )

  unfoldable pub snapshot_on :
      Dsms → Dsm → K8sVolumeRespSpec → CreateK8sVolumeSnapshotSpec → Exec State K8sSnapshotRespSpec
  snapshot_on dsms dsm v spec s =
      if v.protocol == protocol_iscsi
      then take_lun_snapshot dsms spec (
          snapshot_create
            (record {
              name = spec.snapshot_name;
              lun_uuid = spec.k8s_volume_id;
              description = spec.description;
              taken_by = spec.taken_by;
              is_locked = spec.is_locked;
            })
            dsm s)
      else if v.protocol == protocol_smb
      then take_share_snapshot dsms dsm spec (
          share_snapshot_create
            (record {
              share_name = v.share.name;
              desc = share_snapshot_desc_prefix ++ spec.snapshot_name;
              is_locked = spec.is_locked;
            })
            dsm s)
      else (err (status invalid_argument), s)

  unfoldable pub snapshot_found :
      Dsms
      → CreateK8sVolumeSnapshotSpec
      → Option K8sVolumeRespSpec × State
      → Result K8sSnapshotRespSpec × State
  snapshot_found dsms spec (none, s) = (err (status not_found), s)
  snapshot_found dsms spec (some v, s) = elim (get_dsm dsms v.dsm_ip) [
    | none ↦ (err (status invalid_argument), s)
    | some dsm ↦ snapshot_on dsms dsm v spec s
  ]

  -- CreateSnapshot
  unfoldable pub create_snapshot :
      Dsms → CreateK8sVolumeSnapshotSpec → Exec State K8sSnapshotRespSpec
  create_snapshot dsms spec s = snapshot_found dsms spec (get_volume B dsms spec.k8s_volume_id s)

  abbrev pub gone_or : {A : Type 0} → Error → Option A × State → Result Unit × State
  gone_or e (none, s) = (ok tt, s)
  gone_or e (some a, s) = (err e, s)

  abbrev pub failed_or : {A : Type 0} → Error → Result A × State → Result Unit × State
  failed_or e (ok a, s) = (err e, s)
  failed_or e (err e', s) = (ok tt, s)

  unfoldable pub after_share_delete : Dsms → GoString → Result Unit × State → Result Unit × State
  after_share_delete dsms uuid (ok u, s) = (ok tt, s)
  after_share_delete dsms uuid (err e, s) = gone_or e (get_smb_snapshot dsms dsms uuid s)

  unfoldable pub after_lun_delete : Dsm → GoString → Result Unit × State → Result Unit × State
  after_lun_delete dsm uuid (ok u, s) = (ok tt, s)
  after_lun_delete dsm uuid (err e, s) = failed_or e (snapshot_get uuid dsm s)

  unfoldable pub delete_snapshot_on : Dsms → Dsm → K8sSnapshotRespSpec → GoString → Exec State Unit
  delete_snapshot_on dsms dsm snap uuid s =
      if snap.protocol == protocol_smb
      then after_share_delete dsms uuid (share_snapshot_delete snap.time snap.parent_name dsm s)
      else if snap.protocol == protocol_iscsi
      then after_lun_delete dsm uuid (snapshot_delete uuid dsm s)
      else (ok tt, s)

  unfoldable pub delete_snapshot_found :
      Dsms → GoString → Option K8sSnapshotRespSpec × State → Result Unit × State
  delete_snapshot_found dsms uuid (none, s) = (ok tt, s)
  delete_snapshot_found dsms uuid (some snap, s) = elim (get_dsm dsms snap.dsm_ip) [
    | none ↦ (err Error.errorf, s)
    | some dsm ↦ delete_snapshot_on dsms dsm snap uuid s
  ]

  -- DeleteSnapshot
  unfoldable pub delete_snapshot : Dsms → GoString → Exec State Unit
  delete_snapshot dsms uuid s = delete_snapshot_found dsms uuid (get_snapshot_by_uuid dsms uuid s)
