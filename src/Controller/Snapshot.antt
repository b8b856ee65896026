-- ===== src/Controller/Snapshot.antt =====
-- pkg/driver/controllerserver.go: CreateSnapshot and DeleteSnapshot.
use reference_guides.Base.{
  pos, ltb_ℤ, GoString, codes, ◌==◌, ◌/=◌, Option, none, some, [], status, invalid_argument,
  already_exists, internal, Result, ok, err, Exec, fail, or_fail, if◌then◌else◌,
}
use reference_guides.Utils.{string_to_boolean}
use reference_guides.Models.{K8sSnapshotRespSpec, CreateK8sVolumeSnapshotSpec, k8s_csi_name}
use reference_guides.DsmService.{DsmService}
use reference_guides.Controller.Types.{StringMap, at_key, CsiSnapshot}
use reference_guides.Controller.Listing.{snapshot_entry}

-- A snapshot of that name: it serves if it is of the same volume and its time could be read.
unfoldable pub reuse_snapshot : GoString → K8sSnapshotRespSpec → Result CsiSnapshot
reuse_snapshot src_vol_id snapshot =
    if snapshot.parent_uuid /= src_vol_id
    then err (status already_exists)
    else if ltb_ℤ snapshot.create_time (pos 0)
    then err (status internal)
    else ok (snapshot_entry snapshot)

unfoldable pub snapshot_spec : GoString → GoString → StringMap → CreateK8sVolumeSnapshotSpec
snapshot_spec src_vol_id name params = record {
  k8s_volume_id = src_vol_id;
  snapshot_name = name;
  description = at_key params (codes "description");
  taken_by = k8s_csi_name;
  is_locked = string_to_boolean (at_key params (codes "is_locked"));
}

module _ (S : DsmService) where
  open S use {State, create_snapshot, delete_snapshot, get_snapshot_by_name}

  abbrev pub entered : Result K8sSnapshotRespSpec × State → Result CsiSnapshot × State
  entered (err e, s) = (err e, s)
  entered (ok snapshot, s) = (ok (snapshot_entry snapshot), s)

  unfoldable pub reuse_or_create :
      GoString
      → GoString
      → StringMap
      → Option K8sSnapshotRespSpec × State
      → Result CsiSnapshot × State
  reuse_or_create src_vol_id name params (some snapshot, s) =
      (reuse_snapshot src_vol_id snapshot, s)
  reuse_or_create src_vol_id name params (none, s) =
      entered (create_snapshot (snapshot_spec src_vol_id name params) s)

  -- CreateSnapshot
  unfoldable pub handle_create_snapshot : GoString → GoString → StringMap → Exec State CsiSnapshot
  handle_create_snapshot src_vol_id name params s =
      if src_vol_id == []
      then (err (status invalid_argument), s)
      else if name == []
      then (err (status invalid_argument), s)
      else reuse_or_create src_vol_id name params (get_snapshot_by_name name s)

  -- DeleteSnapshot
  unfoldable pub handle_delete_snapshot : GoString → Exec State Unit
  handle_delete_snapshot snapshot_id =
      if snapshot_id == []
      then fail (status invalid_argument)
      else or_fail (status internal) (delete_snapshot snapshot_id)
