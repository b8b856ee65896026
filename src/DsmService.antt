-- ===== src/DsmService.antt =====
-- pkg/interfaces/IDsmService.go: what the CSI handlers use of the service, and the service that fills it.
use reference_guides.Base.{ℤ, GoString, Option, List, Exec}
use reference_guides.WebApi.Types.{VolInfo}
use reference_guides.Backend.{Backend}
use reference_guides.Models.{
  CreateK8sVolumeSpec, K8sVolumeRespSpec, K8sSnapshotRespSpec, CreateK8sVolumeSnapshotSpec,
}
use reference_guides.Service.Registry.{Dsms}
use reference_guides.Service.Listing
use reference_guides.Service.Volumes
use reference_guides.Service.Snapshots

pub record DsmService : Type 1 where
  pub State : Type 0
  pub list_dsm_volumes : GoString → State → List VolInfo × State
  pub create_volume : CreateK8sVolumeSpec → Exec State (Option K8sVolumeRespSpec)
  pub delete_volume : GoString → Exec State Unit
  pub list_volumes : State → List K8sVolumeRespSpec × State
  pub get_volume : GoString → State → Option K8sVolumeRespSpec × State
  pub expand_volume : GoString → ℤ → Exec State K8sVolumeRespSpec
  pub create_snapshot : CreateK8sVolumeSnapshotSpec → Exec State K8sSnapshotRespSpec
  pub delete_snapshot : GoString → Exec State Unit
  pub list_all_snapshots : State → List K8sSnapshotRespSpec × State
  pub list_snapshots : GoString → State → List K8sSnapshotRespSpec × State
  pub get_volume_by_name : GoString → State → Option K8sVolumeRespSpec × State
  pub get_snapshot_by_name : GoString → State → Option K8sSnapshotRespSpec × State

-- The service over a set of registered DSMs.
abbrev pub dsm_service : Backend → Dsms → DsmService
dsm_service B dsms = record {
  State = B.State;
  list_dsm_volumes = Listing.list_dsm_volumes B dsms;
  create_volume = Volumes.create_volume B dsms;
  delete_volume = Volumes.delete_volume B dsms;
  list_volumes = Listing.list_volumes B dsms;
  get_volume = Listing.get_volume B dsms;
  expand_volume = Volumes.expand_volume B dsms;
  create_snapshot = Snapshots.create_snapshot B dsms;
  delete_snapshot = Snapshots.delete_snapshot B dsms;
  list_all_snapshots = Snapshots.list_all_snapshots B dsms;
  list_snapshots = Snapshots.list_snapshots B dsms;
  get_volume_by_name = Listing.get_volume_by_name B dsms;
  get_snapshot_by_name = Snapshots.get_snapshot_by_name B dsms;
}
