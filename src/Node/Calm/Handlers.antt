-- ===== src/Node/Calm/Handlers.antt =====
-- pkg/driver/nodeserver.go: NodeUnstageVolume and NodeExpandVolume over the service of pkg/dsm/service do
-- not panic.
use reference_guides.Base.{
  Bool, Option, none, some, status, Exec, pure, fail, ◌≡◌, ◌⊎◌, not_found, Discipline,
}
use reference_guides.Utils.{protocol_smb, protocol_iscsi}
use reference_guides.Models.{K8sVolumeRespSpec}
use reference_guides.Backend.{Backend}
use reference_guides.NodeService.{node_service}
use reference_guides.Service.Registry.{Dsms}
use reference_guides.Service.Listing.Mapped.{HasLun}
use reference_guides.Node.Host.{Host}
use reference_guides.Node.Server.{NodeServer, StateOf}
use reference_guides.Node.Disciplined.Volumes.{beside}
use reference_guides.Node.Calm.Tidy.{Untidy, calm, CalmHost}

module _ (B : Backend) (dsms : Dsms) (H : Host) (tidy : CalmHost H) (enabled : Bool) where
  abbrev pub server : NodeServer
  server = record { service = node_service B dsms; host = H; multipath_enabled = enabled }

  abbrev D : Discipline H.State
  D = calm H.State (Untidy H)

  abbrev E : Discipline (StateOf server)
  E = beside B.State D

  -- What is known of a volume that the service has.
  abbrev IsUsable : K8sVolumeRespSpec → Type 0
  IsUsable v = HasLun v × ((v.protocol ≡ protocol_iscsi) ⊎ (v.protocol ≡ protocol_smb))

  or_not_found : Option K8sVolumeRespSpec → Exec (StateOf server) K8sVolumeRespSpec
  or_not_found found = elim found [ none ↦ fail (status not_found) | some v ↦ pure v ]
