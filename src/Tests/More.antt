-- ===== src/Tests/More.antt =====
-- Sessions, registration, clones, snapshots and restored shares at concrete data.
use reference_guides.Base.{
  pos, codes, ◌==◌, ◌≡◌, refl, ◌⊎◌, inl, eq_refl, All, Distinct, true, false, none, [], ◌∷◌, ok,
  arith, add64, mul64, has_prefix, quot64, int64,
}
use reference_guides.WebApi.Types.{ShareInfo, SnapshotInfo, ShareSnapshotInfo}
use reference_guides.WebApi.Zero
use reference_guides.WebApi.Session.{Dsm}
use reference_guides.Backend.{Backend}
use reference_guides.Utils.{bytes_to_mb_ceil, mb_to_bytes}
use reference_guides.Models.{K8sVolumeRespSpec, K8sSnapshotRespSpec, CreateK8sVolumeSnapshotSpec}
use reference_guides.Service.Convert.{
  dsm_lun_to_k8s_volume, dsm_lun_snapshot_to_k8s_snapshot, dsm_share_snapshot_to_k8s_snapshot,
  dsm_share_to_k8s_volume,
}
use reference_guides.Service.Registry.{get_dsm, add_dsm}
use reference_guides.Service.Registry.Addresses.{add_dsm-Distinct}
use reference_guides.Service.Iscsi.{is_still_cloning, wait_clone_finished}
use reference_guides.Service.Iscsi.Cloning.{IsUnlocked, wait_clone_finished-IsUnlocked}
use reference_guides.Service.Smb.{create_smb_volume_by_snapshot, ensure_quota}
use reference_guides.Service.Volumes.{create_volume}
use reference_guides.Service.Volumes.Made.{VolumeHas, IsMade, create_volume-IsMade}
use reference_guides.Service.Snapshots.{
  list_all_snapshots, get_snapshot_by_uuid, delete_snapshot, delete_snapshot_on,
  delete_snapshot_found, create_snapshot, snapshot_found, snapshot_on, take_lun_snapshot,
}
use reference_guides.Service.Snapshots.Owned.{
  IsKept, list_all_snapshots-IsKept, IsDeleted, delete_snapshot-IsDeleted,
}
use reference_guides.Service.Snapshots.Taken.{IsTaken, create_snapshot-IsTaken}
use reference_guides.Service.Snapshots
use reference_guides.Service.Listing
use reference_guides.Controller.Create.{is_other_capacity}
use reference_guides.Controller.Create.Restored.{restored_share_fits}
use reference_guides.Tests.Fixture.{nas, backend, lun, spec}
use reference_guides.Tests.Memory.{snap_a}

abbrev second : Dsm
second = record nas { ip = codes "nas2" }

both_added : (add_dsm backend (nas ∷ []) second true).0 ≡ ok (second ∷ nas ∷ [])
unfolding add_dsm get_dsm ◌==◌
both_added = refl

add_dsm-Distinct_example :
    Distinct (λ dsm. dsm.ip) (second ∷ nas ∷ [])
    × (((second ∷ nas ∷ []) ≡ (nas ∷ [])) ⊎ ((second ∷ nas ∷ []) ≡ (second ∷ nas ∷ [])))
add_dsm-Distinct_example =
    add_dsm-Distinct backend (nas ∷ []) second true (second ∷ nas ∷ []) (tt, tt) both_added

waited : wait_clone_finished backend 2 (codes "k8s-csi-a") nas true ≡ (ok tt, true)
unfolding wait_clone_finished is_still_cloning
waited = refl

wait_clone_finished-IsUnlocked_example : IsUnlocked backend (codes "k8s-csi-a") nas true
wait_clone_finished-IsUnlocked_example =
    wait_clone_finished-IsUnlocked backend (codes "k8s-csi-a") nas 2 true true waited

create_volume-IsMade_example :
    VolumeHas (IsMade backend (nas ∷ []) spec) (create_volume backend (nas ∷ []) spec false).0
create_volume-IsMade_example =
    create_volume-IsMade backend (nas ∷ []) spec false (inl (eq_refl (codes "iscsi")))

abbrev share : ShareInfo
share = record Zero.share_info { name = codes "k8s-csi-a"; uuid = codes "s" }

abbrev sharing : Backend
sharing = record backend {
  share_get = λ name dsm s. (ok share, s);
  share_clone = λ spec dsm s. (ok [], s);
  set_share_quota = λ info size dsm s. (ok tt, s);
}

abbrev restored : K8sVolumeRespSpec
restored = record {
  dsm_ip = codes "10.0.0.7";
  volume_id = codes "s";
  size_in_bytes = pos 2147483648;
  location = [];
  name = codes "k8s-csi-a";
  source = codes "//10.0.0.7/k8s-csi-a";
  lun = Zero.lun_info;
  target = Zero.target_info;
  share = record share { quota_value_in_mb = pos 2048 };
  protocol = codes "smb";
}

restored_now : (create_smb_volume_by_snapshot sharing nas spec snap_a true).0 ≡ ok restored
unfolding create_smb_volume_by_snapshot ensure_quota bytes_to_mb_ceil add64 quot64
    dsm_share_to_k8s_volume mb_to_bytes mul64
restored_now = refl

restored_share_fits_example : is_other_capacity restored spec.size ≡ false
restored_share_fits_example =
    restored_share_fits sharing nas spec snap_a true restored 2147483648 refl (omega arith)
      restored_now

list_all_snapshots-IsKept_example :
    All (IsKept (nas ∷ [])) (list_all_snapshots backend (nas ∷ []) true).0
list_all_snapshots-IsKept_example = list_all_snapshots-IsKept backend (nas ∷ []) true

abbrev wanted : CreateK8sVolumeSnapshotSpec
wanted = record {
  k8s_volume_id = codes "u";
  snapshot_name = codes "s1";
  description = [];
  taken_by = [];
  is_locked = false;
}

abbrev lun_snap : SnapshotInfo
lun_snap = record Zero.snapshot_info {
  name = codes "s1";
  uuid = codes "x";
  parent_uuid = codes "u";
}

abbrev share_snap : ShareSnapshotInfo
share_snap = record {
  uuid = codes "y";
  time = codes "GMT+08-2022.01.14-16.51.34";
  desc = codes "(Do not change)s1";
  snap_size = [];
  lock = false;
  schedule_snapshot = false;
}

abbrev snapping : Backend
snapping = record backend {
  snapshot_create = λ spec dsm s. (ok (codes "x"), s);
  snapshot_delete = λ uuid dsm s. (ok tt, s);
  snapshot_list = λ uuid dsm s. (ok (lun_snap ∷ []), s);
  share_list = λ dsm s. (ok (record share { uuid = codes "u" } ∷ []), s);
  share_snapshot_list = λ name dsm s. (ok (share_snap ∷ []), s);
}

abbrev listed : K8sSnapshotRespSpec
listed = dsm_lun_snapshot_to_k8s_snapshot nas.ip lun_snap lun

shot : (create_snapshot snapping (nas ∷ []) wanted true).0 ≡ ok listed
unfolding create_snapshot snapshot_found snapshot_on take_lun_snapshot get_dsm Listing.get_volume
    Listing.list_volumes Snapshots.get_iscsi_snapshot Snapshots.list_iscsi_snapshots_by_dsm
    Snapshots.lun_snapshots Listing.list_iscsi_volumes ◌==◌ Listing.dsm_iscsi_volumes
    Listing.target_volumes Listing.mapped_volumes Listing.mapped_volume has_prefix
    dsm_lun_snapshot_to_k8s_snapshot dsm_lun_to_k8s_volume int64 Listing.list_smb_volumes
    Listing.dsm_smb_volumes Listing.share_volumes
shot = refl

create_snapshot-IsTaken_example : IsTaken snapping (nas ∷ []) wanted true listed
create_snapshot-IsTaken_example =
    create_snapshot-IsTaken snapping (nas ∷ []) wanted true listed shot

gone : delete_snapshot snapping (nas ∷ []) (codes "x") true ≡ (ok tt, true)
unfolding delete_snapshot delete_snapshot_found delete_snapshot_on get_snapshot_by_uuid
    list_all_snapshots Snapshots.snapshots_of Snapshots.after_lun_delete get_dsm
    Snapshots.list_iscsi_snapshots_by_dsm Snapshots.list_smb_snapshots_by_dsm
    Snapshots.lun_snapshots Snapshots.share_snapshots Listing.list_iscsi_volumes ◌==◌
    Listing.dsm_iscsi_volumes Listing.target_volumes Listing.mapped_volumes Listing.mapped_volume
    Listing.list_smb_volumes Listing.dsm_smb_volumes Listing.share_volumes Listing.shared_volumes
    has_prefix dsm_lun_snapshot_to_k8s_snapshot dsm_lun_to_k8s_volume
    dsm_share_snapshot_to_k8s_snapshot dsm_share_to_k8s_volume int64
gone = refl

delete_snapshot-IsDeleted_example :
    (((get_snapshot_by_uuid snapping (nas ∷ []) (codes "x") true).0 ≡ none)
      × ((get_snapshot_by_uuid snapping (nas ∷ []) (codes "x") true).1 ≡ true))
    ⊎ IsDeleted snapping (nas ∷ []) (codes "x") true
delete_snapshot-IsDeleted_example =
    delete_snapshot-IsDeleted snapping (nas ∷ []) (codes "x") true true gone
