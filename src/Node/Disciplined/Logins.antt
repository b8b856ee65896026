-- ===== src/Node/Disciplined/Logins.antt =====
-- pkg/driver/nodeserver.go: portals and login to the target of a volume under a discipline.
use reference_guides.Base.{
  ℤ, GoString, Option, none, some, List, [], ◌∷◌, status, internal, not_found, Exec, pure, fail,
  lift, ◌>>=◌, ◌≡◌, refl, Discipline, IsFine, Meets, disciplined, bind-Meets, bind_with-Meets,
  pure-Meets, fail_status-Meets,
}
use reference_guides.Models.{K8sVolumeRespSpec}
use reference_guides.WebApi.Types.{SharePermissionSetSpec}
use reference_guides.WebApi.Session.{Dsm}
use reference_guides.Node.Server.{NodeServer, StateOf, on_service, always}
use reference_guides.Node.Target.{
  mapping_index_of, has_two_controllers, other_portals, portals_on, get_portals, login_portal,
  login_portals, login_volume, login_target,
}
use reference_guides.Node.Disciplined.Calls.{HostMeets}
use reference_guides.Node.Disciplined.Commands.{login-Meets, is_multipath_enabled-Meets}
use reference_guides.Node.Disciplined.Paths.{wait_for_path-Meets}
use reference_guides.Node.Disciplined.Volumes.{beside, on_host-Meets, on_service-Meets}

-- The errors of the calls to a DSM.
pub record ServiceFine (ns : NodeServer) (D : Discipline ns.host.State) : Type 0 where
  pub is_uc_fine : (dsm : Dsm) (s : ns.service.State) → IsFine D (ns.service.is_uc dsm s).0
  pub other_fine :
      (dsm : Dsm) (s : ns.service.State) → IsFine D (ns.service.get_another_controller dsm s).0
  pub permission_fine :
      (spec : SharePermissionSetSpec) (dsm : Dsm) (s : ns.service.State)
      → IsFine D (ns.service.share_permission_set spec dsm s).0

module _ (ns : NodeServer) (D : Discipline ns.host.State) (M : HostMeets ns.host D)
    (F : ServiceFine ns D) where
  abbrev E : Discipline (StateOf ns)
  E = beside ns.service.State D

  has_two_controllers-Meets : (dsm : Dsm) → Meets E (has_two_controllers ns dsm)
  unfolding has_two_controllers
  has_two_controllers-Meets dsm =
      search
        (
          disciplined,
          on_host-Meets,
          on_service-Meets,
          F.is_uc_fine,
          is_multipath_enabled-Meets ns.host D M,
        )
        depth 8

  other_portals-Meets : (dsm : Dsm) → Meets E (other_portals ns dsm)
  unfolding other_portals
  other_portals-Meets dsm = search (disciplined, on_service-Meets, F.other_fine) depth 8

  look_up-Meets : (name : GoString) → Meets D (always (ns.host.look_up_ip name))
  look_up-Meets name = record { follows = M.look_up_ip_follows name; fine = λ s. tt }

  portals_on-Meets : (ip : GoString) (dsm : Dsm) → Meets E (portals_on ns ip dsm)
  unfolding portals_on
  portals_on-Meets ip dsm =
      search
        (disciplined, on_host-Meets, look_up-Meets, has_two_controllers-Meets, other_portals-Meets)
        depth 8

  portals_of_found :
      (ip : GoString) (o : Option Dsm)
      → Meets E (elim o as (λ x. Exec (StateOf ns) (List GoString)) [
        | none ↦ pure []
        | some dsm ↦ portals_on ns ip dsm
      ])
  portals_of_found ip none = pure-Meets E []
  portals_of_found ip (some dsm) = portals_on-Meets ip dsm

  get_portals-Meets : (ip : GoString) → Meets E (get_portals ns ip)
  unfolding get_portals
  get_portals-Meets ip = portals_of_found ip (ns.service.get_dsm ip)

  login_portal-Meets :
      (iqn : GoString) (index : ℤ) (portal : GoString) → Meets E (login_portal ns iqn index portal)
  unfolding login_portal
  login_portal-Meets iqn index portal =
      search (disciplined, on_host-Meets, login-Meets ns.host D M, wait_for_path-Meets ns.host D M)
        depth 8

  login_portals-Meets :
      (iqn : GoString) (index : ℤ) (portals : List GoString)
      → Meets E (login_portals ns iqn index portals)
  unfolding login_portals
  login_portals-Meets iqn index [] = search disciplined
  login_portals-Meets iqn index (portal ∷ portals) =
      bind-Meets E (login_portal ns iqn index portal) _ (login_portal-Meets iqn index portal)
        λ path.
          bind-Meets E (login_portals ns iqn index portals) _
            (login_portals-Meets iqn index portals) λ paths. pure-Meets E (path ∷ paths)

  login_on_portals :
      (v : K8sVolumeRespSpec)
      → IsFine E (mapping_index_of v.target)
      → (portals : List GoString)
      → Meets E (elim portals as (λ x. Exec (StateOf ns) (List GoString)) [
        | [] ↦ fail (status internal)
        | portal ∷ more ↦ lift (mapping_index_of v.target) >>= λ index.
            login_portals ns v.target.iqn index (portal ∷ more)
      ])
  login_on_portals v fine [] = search disciplined
  login_on_portals v fine (portal ∷ more) = search (disciplined, login_portals-Meets)

  login_volume-Meets :
      (v : K8sVolumeRespSpec) → IsFine E (mapping_index_of v.target) → Meets E (login_volume ns v)
  unfolding login_volume
  login_volume-Meets v fine =
      bind-Meets E (get_portals ns v.dsm_ip) _ (get_portals-Meets v.dsm_ip)
        (login_on_portals v fine)

  -- A volume of this id that the service has, has a mapped LUN.
  abbrev pub IsMappedAnyhow : GoString → Type 0
  IsMappedAnyhow volume_id =
      (s : ns.service.State) (v : K8sVolumeRespSpec)
      → (ns.service.get_volume volume_id s).0 ≡ some v
      → IsFine E (mapping_index_of v.target)

  after_search :
      (volume_id : GoString)
      → IsMappedAnyhow volume_id
      → (found : Option K8sVolumeRespSpec)
      → ((s : ns.service.State) × ((ns.service.get_volume volume_id s).0 ≡ found))
      → Meets E (elim found as (λ o. Exec (StateOf ns) (List GoString)) [
        | none ↦ fail (status not_found)
        | some v ↦ login_volume ns v
      ])
  after_search volume_id mapped none h = fail_status-Meets E not_found
  after_search volume_id mapped (some v) (s, e) = login_volume-Meets v (mapped s v e)

  -- loginTarget, where it reads the index of a LUN that is there.
  pub login_target-Meets :
      (volume_id : GoString) → IsMappedAnyhow volume_id → Meets E (login_target ns volume_id)
  unfolding login_target
  login_target-Meets volume_id mapped =
      bind_with-Meets E
        (λ found. (s : ns.service.State) × ((ns.service.get_volume volume_id s).0 ≡ found))
        (on_service (always (ns.service.get_volume volume_id))) _
        (on_service-Meets D (always (ns.service.get_volume volume_id)) (λ s. tt)) (λ s. (s.0, refl))
        (after_search volume_id mapped)
