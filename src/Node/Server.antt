-- ===== src/Node/Server.antt =====
-- pkg/driver/nodeserver.go: the node server, its state, and the calls of its parts.
use reference_guides.Base.{Bool, ok, Exec}
use reference_guides.NodeService.{NodeService}
use reference_guides.Node.Host.{Host}

-- `multipath_enabled` is the variable MultipathEnabled of the package, which main.go sets at the start.
pub record NodeServer : Type 1 where
  pub service : NodeService
  pub host : Host
  pub multipath_enabled : Bool

-- The state of the service and of the host.
abbrev pub StateOf : NodeServer → Type 0
StateOf ns = ns.service.State × ns.host.State

module _ {S H A : Type 0} where
  abbrev pub on_service : Exec S A → Exec (S × H) A
  on_service m (s, h) = let (r, s') = m s in (r, (s', h))

  abbrev pub on_host : Exec H A → Exec (S × H) A
  on_host m (s, h) = let (r, h') = m h in (r, (s, h'))

module _ {S A : Type 0} where
  -- A call that has no error.
  abbrev pub always : (S → A × S) → Exec S A
  always m s = let (a, s') = m s in (ok a, s')
