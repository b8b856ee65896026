-- ===== src/Node/Disciplined/Volumes.antt =====
-- pkg/driver/nodeserver.go: login to the target of a volume and logout under a discipline.
use reference_guides.Base.{
  GoString, true, Option, none, some, Result, ok, err, Exec, pure, if◌then◌else◌, ◌≡◌, refl,
  Bool-cases, inl, inr, Discipline, IsFine, Meets, disciplined, bind_with-Meets, pure-Meets,
}
use reference_guides.Models.{K8sVolumeRespSpec}
use reference_guides.Node.Server.{NodeServer, StateOf, on_service, on_host, always}
use reference_guides.Node.Target.{
  is_iscsi, mapping_index_of, is_multipath, logout_volume, logout_target,
}
use reference_guides.Node.Disciplined.Calls.{HostMeets}
use reference_guides.Node.Disciplined.Commands.{
  logout-Meets, is_multipath_enabled-Meets, multipath_flush-Meets,
}
use reference_guides.Node.Disciplined.Paths.{get_existed_volume_mount_path-Meets}

-- The discipline of the host, over the states of the service and the host.
abbrev pub beside : (S : Type 0) {H : Type 0} → Discipline H → Discipline (S × H)
beside S D = record {
  Follows = λ x y. D.Follows x.1 y.1;
  stays = λ x. D.stays x.1;
  joins = λ x y z. D.joins x.1 y.1 z.1;
  Fine = D.Fine;
  fine_status = D.fine_status;
  fine_errorf = D.fine_errorf;
}

IsFine-beside :
    (S : Type 0) {H A : Type 0} (D : Discipline H) (r : Result A)
    → IsFine D r
    → IsFine (beside S D) r
IsFine-beside S D (ok a) h = tt
IsFine-beside S D (err e) h = h

module _ {S H A : Type 0} (D : Discipline H) where
  pub on_host-Meets : (m : Exec H A) → Meets D m → Meets (beside S D) (on_host m)
  on_host-Meets m h = record { follows = λ s. h.follows s.1; fine = λ s. h.fine s.1 }

  pub on_service-Meets :
      (m : Exec S A) → ((s : S) → IsFine D (m s).0) → Meets (beside S D) (on_service m)
  on_service-Meets m h = record {
    follows = λ s. D.stays s.1;
    fine = λ s. IsFine-beside S D (m s.0).0 (h s.0);
  }

module _ (ns : NodeServer) (D : Discipline ns.host.State) (M : HostMeets ns.host D) where
  abbrev E : Discipline (StateOf ns)
  E = beside ns.service.State D

  pub is_multipath-Meets : (path : GoString) → Meets E (is_multipath ns path)
  unfolding is_multipath
  is_multipath-Meets path =
      search (disciplined, on_host-Meets, is_multipath_enabled-Meets ns.host D M)

  pub logout_volume-Meets :
      (v : K8sVolumeRespSpec) → IsFine E (mapping_index_of v.target) → Meets E (logout_volume ns v)
  unfolding logout_volume
  logout_volume-Meets v fine =
      search
        (
          disciplined,
          on_host-Meets,
          is_multipath-Meets,
          get_existed_volume_mount_path-Meets ns.host D M,
          multipath_flush-Meets ns.host D M,
          logout-Meets ns.host D M,
        )
        depth 14

  -- Every iSCSI volume of this id that the service has, has a mapped LUN.
  abbrev pub IsMapped : GoString → Type 0
  IsMapped volume_id =
      (s : ns.service.State) (v : K8sVolumeRespSpec)
      → (ns.service.get_volume volume_id s).0 ≡ some v
      → is_iscsi v ≡ true
      → IsFine E (mapping_index_of v.target)

  after_search :
      (volume_id : GoString)
      → IsMapped volume_id
      → (found : Option K8sVolumeRespSpec)
      → ((s : ns.service.State) × ((ns.service.get_volume volume_id s).0 ≡ found))
      → Meets E (elim found as (λ o. Exec (StateOf ns) Unit) [
        | none ↦ pure tt
        | some v ↦ if is_iscsi v then logout_volume ns v else pure tt
      ])
  after_search volume_id mapped none h = pure-Meets E tt
  after_search volume_id mapped (some v) (s, e) = elim (Bool-cases (is_iscsi v)) [
    | inl t ↦ rw t (logout_volume-Meets v (mapped s v e t))
    | inr f ↦ rw f (pure-Meets E tt)
  ]

  -- logoutTarget, where it reads the index of a LUN that is there.
  pub logout_target-Meets :
      (volume_id : GoString) → IsMapped volume_id → Meets E (logout_target ns volume_id)
  unfolding logout_target
  logout_target-Meets volume_id mapped =
      bind_with-Meets E
        (λ found. (s : ns.service.State) × ((ns.service.get_volume volume_id s).0 ≡ found))
        (on_service (always (ns.service.get_volume volume_id))) _
        (on_service-Meets D (always (ns.service.get_volume volume_id)) (λ s. tt)) (λ s. (s.0, refl))
        (after_search volume_id mapped)
