-- ===== src/Backend.antt =====
-- What the service (pkg/dsm/service) uses of the outside: the methods of webapi.DSM, the parser of a
-- snapshot's time (time.Parse) and the number of retries that backoff.RetryNotify makes.
use reference_guides.Base.{ℕ, ℤ, GoString, Bool, Option, List, Error, Exec}
use reference_guides.WebApi.Types.{
  LunInfo, TargetInfo, SnapshotInfo, VolInfo, DsmInfo, ShareInfo, ShareSnapshotInfo, LunCreateSpec,
  LunUpdateSpec, LunCloneSpec, TargetCreateSpec, SnapshotCreateSpec, SnapshotCloneSpec,
  ShareCreateSpec, ShareCloneSpec, ShareSnapshotCreateSpec, SharePermissionSetSpec,
}
use reference_guides.WebApi.Session.{Dsm}

pub record Backend : Type 1 where
  pub State : Type 0
  -- The outcome of one Login or Logout; the error is nil for `none`.
  pub login : Dsm → State → Option Error × State
  pub logout : Dsm → State → Option Error × State
  pub volume_list : Dsm → Exec State (List VolInfo)
  pub volume_get : GoString → Dsm → Exec State VolInfo
  pub dsm_info_get : Dsm → Exec State DsmInfo
  pub is_uc : Dsm → Exec State Bool
  pub get_another_controller : Dsm → Exec State Dsm
  pub lun_create : LunCreateSpec → Dsm → Exec State GoString
  pub lun_update : LunUpdateSpec → Dsm → Exec State Unit
  pub lun_get : GoString → Dsm → Exec State LunInfo
  pub lun_clone : LunCloneSpec → Dsm → Exec State GoString
  pub lun_map_target : List GoString → GoString → Dsm → Exec State Unit
  pub lun_delete : GoString → Dsm → Exec State Unit
  pub target_list : Dsm → Exec State (List TargetInfo)
  pub target_get : GoString → Dsm → Exec State TargetInfo
  pub target_set : GoString → ℤ → Dsm → Exec State Unit
  pub target_create : TargetCreateSpec → Dsm → Exec State GoString
  pub target_delete : GoString → Dsm → Exec State Unit
  pub snapshot_create : SnapshotCreateSpec → Dsm → Exec State GoString
  pub snapshot_delete : GoString → Dsm → Exec State Unit
  pub snapshot_get : GoString → Dsm → Exec State SnapshotInfo
  pub snapshot_list : GoString → Dsm → Exec State (List SnapshotInfo)
  pub snapshot_clone : SnapshotCloneSpec → Dsm → Exec State GoString
  pub share_get : GoString → Dsm → Exec State ShareInfo
  pub share_list : Dsm → Exec State (List ShareInfo)
  pub share_create : ShareCreateSpec → Dsm → Exec State Unit
  pub share_clone : ShareCloneSpec → Dsm → Exec State GoString
  pub share_delete : GoString → Dsm → Exec State Unit
  pub set_share_quota : ShareInfo → ℤ → Dsm → Exec State Unit
  pub share_snapshot_create : ShareSnapshotCreateSpec → Dsm → Exec State GoString
  pub share_snapshot_list : GoString → Dsm → Exec State (List ShareSnapshotInfo)
  pub share_snapshot_delete : GoString → GoString → Dsm → Exec State Unit
  pub share_permission_set : SharePermissionSetSpec → Dsm → Exec State Unit
  -- Seconds since 1970 for the layout "GMT-07-2006.01.02-15.04.05".
  pub parse_time : GoString → Option ℤ
  pub retries : ℕ
