-- ===== src/NodeService.antt =====
-- pkg/interfaces/IDsmService.go: what the node server uses of the service, and the methods of the DSMs
-- that it gets from it; the service that fills it.
use reference_guides.Base.{GoString, Bool, Option, Exec}
use reference_guides.WebApi.Types.{SharePermissionSetSpec}
use reference_guides.WebApi.Session.{Dsm}
use reference_guides.Backend.{Backend}
use reference_guides.Models.{K8sVolumeRespSpec}
use reference_guides.Service.Registry
use reference_guides.Service.Registry.{Dsms}
use reference_guides.Service.Listing

pub record NodeService : Type 1 where
  pub State : Type 0
  pub get_volume : GoString → State → Option K8sVolumeRespSpec × State
  pub get_dsm : GoString → Option Dsm
  pub is_uc : Dsm → Exec State Bool
  pub get_another_controller : Dsm → Exec State Dsm
  pub share_permission_set : SharePermissionSetSpec → Dsm → Exec State Unit

abbrev pub node_service : Backend → Dsms → NodeService
node_service B dsms = record {
  State = B.State;
  get_volume = Listing.get_volume B dsms;
  get_dsm = Registry.get_dsm dsms;
  is_uc = B.is_uc;
  get_another_controller = B.get_another_controller;
  share_permission_set = B.share_permission_set;
}
