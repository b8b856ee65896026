-- ===== src/Controller/Listing.antt =====
-- pkg/driver/controllerserver.go: ListVolumes, ListSnapshots and GetCapacity.
pub mod Complete
use reference_guides.Base.{
  ℤ, pos, ltb_ℤ, add64, GoString, codes, ◌==◌, ◌/=◌, parse_int, Bool, true, false, ◌&&◌, sort,
  Option, none, some, List, [], ◌∷◌, status, invalid_argument, ok, err, Exec, if◌then◌else◌,
}
use reference_guides.Models.{K8sVolumeRespSpec, K8sSnapshotRespSpec, volume_less, snapshot_less}
use reference_guides.WebApi.Types.{VolInfo}
use reference_guides.DsmService.{DsmService}
use reference_guides.Controller.Types.{StringMap, at_key, CsiVolume, CsiSnapshot}
use reference_guides.Controller.Paging.{entries_of, map_result, list_page}

unfoldable pub volume_entry : K8sVolumeRespSpec → CsiVolume
volume_entry info = record {
  volume_id = info.volume_id;
  capacity_bytes = info.size_in_bytes;
  content_source = none;
  volume_context =
      (codes "dsm", info.dsm_ip)
      ∷ (codes "lunName", info.lun.name)
      ∷ (codes "targetIqn", info.target.iqn)
      ∷ (codes "shareName", info.share.name)
      ∷ (codes "protocol", info.protocol)
      ∷ [];
}

-- The csi.Snapshot of CreateSnapshot and ListSnapshots.
unfoldable pub snapshot_entry : K8sSnapshotRespSpec → CsiSnapshot
snapshot_entry snapshot = record {
  size_bytes = snapshot.size_in_bytes;
  snapshot_id = snapshot.uuid;
  source_volume_id = snapshot.parent_uuid;
  creation_time = snapshot.create_time;
  ready_to_use = snapshot.status == codes "Healthy";
}

-- `snapshotId != "" && snapshot.Uuid != snapshotId` leads to `continue`.
abbrev pub is_wanted : GoString → K8sSnapshotRespSpec → Bool
is_wanted snapshot_id snapshot =
    if (snapshot_id /= []) && (snapshot.uuid /= snapshot_id) then false else true

-- The loop of GetCapacity, with the sum so far. The sum may wrap.
unfoldable pub capacity_loop : GoString → ℤ → List VolInfo → ℤ
capacity_loop location total [] = total
capacity_loop location total (info ∷ infos) =
    capacity_loop location
      (if (location /= []) && (info.path /= location)
        then total
        else elim (parse_int info.free) [ none ↦ total | some free ↦ add64 total free ])
      infos

module _ (S : DsmService) where
  open S use {State, list_volumes, list_snapshots, list_all_snapshots, list_dsm_volumes}

  -- ListVolumes; a negative maxEntries is refused before the service is asked.
  unfoldable pub handle_list_volumes : ℤ → GoString → Exec State (List CsiVolume × GoString)
  handle_list_volumes max_entries token s =
      if ltb_ℤ max_entries (pos 0)
      then (err (status invalid_argument), s)
      else (let (infos, s') = list_volumes s in
          (
            map_result (entries_of volume_entry) (
                list_page (λ v. v.volume_id) (λ v. true) max_entries token
                  (sort volume_less infos)),
            s',
          ))

  unfoldable pub snapshots_from : GoString → State → List K8sSnapshotRespSpec × State
  snapshots_from src_vol_id s =
      if src_vol_id /= [] then list_snapshots src_vol_id s else list_all_snapshots s

  -- ListSnapshots
  unfoldable pub handle_list_snapshots :
      GoString → GoString → ℤ → GoString → Exec State (List CsiSnapshot × GoString)
  handle_list_snapshots src_vol_id snapshot_id max_entries token s =
      if ltb_ℤ max_entries (pos 0)
      then (err (status invalid_argument), s)
      else (let (snapshots, s') = snapshots_from src_vol_id s in
          (
            map_result (entries_of snapshot_entry) (
                list_page (λ x. x.uuid) (is_wanted snapshot_id) max_entries token
                  (sort snapshot_less snapshots)),
            s',
          ))

  -- GetCapacity
  unfoldable pub handle_get_capacity : StringMap → Exec State ℤ
  handle_get_capacity params s =
      let (infos, s') = list_dsm_volumes (at_key params (codes "dsm")) s in
      (ok (capacity_loop (at_key params (codes "location")) (pos 0) infos), s')
