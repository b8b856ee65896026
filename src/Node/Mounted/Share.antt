-- ===== src/Node/Mounted/Share.antt =====
-- pkg/driver/nodeserver.go: what staging a share does to the mounts.
use reference_guides.Base.{
  codes, trim, is_space, ℕ, zero, suc, lift, lift-Meets, bind-Meets, GoString, is_empty, Bool, true,
  false, Option, none, some, List, status, invalid_argument, internal, Error, Result, ok, err, Exec,
  pure, fail, or_status, if◌then◌else◌, refl, ap, ◌∙◌, inl, inr, false, subst, disciplined,
}
use reference_guides.Controller.Types.{at_key}
use reference_guides.Node.Server.{NodeServer, StateOf, on_host}
use reference_guides.Node.Mounts.{create_target_mount_path}
use reference_guides.Node.Mounted.Tables.{plus, Table, Mounts, is_ok, MountTable, keeps, any-IsFine}
use reference_guides.Node.Mounted.Rules.{
  any_beside, table_of, Keeps, Does, mounting, bind-Does, ask-Does, fail-Does, if-Does,
}
use reference_guides.Controller.Types.{StringMap}
use reference_guides.WebApi.Types.{SharePermissionSetSpec}
use reference_guides.WebApi.Session.{Dsm}
use reference_guides.Utils.{AuthType, auth_type_read_write}
use reference_guides.Node.Types.{NodeStageVolumeSpec}
use reference_guides.Node.Mounts.{mount_sensitive_retry}
use reference_guides.Node.Smb.{source_parts, grant, permit_on, permit, set_smb_volume_permission}
use reference_guides.Node.Stage.{mount_share, stage_share, node_stage_smb_volume}
use reference_guides.Node.Disciplined.Volumes.{beside, on_service-Meets}
use reference_guides.Node.Mounted.Tables.{plus, Table, Stages}
use reference_guides.Node.Mounted.Publishing.{IsFree, occupied, created-Keeps, created-says}
use reference_guides.Node.Mounted.Lun.{StagesFor, stages_fail, mounts→stages}

module _ (ns : NodeServer) (T : MountTable ns.host) where
  abbrev S : Type 0
  S = ns.service.State

  -- What is mounted by an attempt that failed, and then by the ones after it.
  again_grows :
      (path : GoString) (b : Bool) (t u w : Table)
      → Mounts path false t u
      → Stages path b u w
      → Stages path b t w
  unfolding plus
  again_grows path b t u w (inl e) later = subst (λ x. Stages path b x w) e later
  again_grows path b t u w (inr e) ((k, grown), there) =
      ((suc k, grown ∙ ap (plus k path) e), there)

  retry-Stages :
      (n : ℕ) (source target fs_type : GoString) (options sensitive : List GoString)
      (h : ns.host.State)
      → Stages target
          (is_ok (mount_sensitive_retry ns.host n source target fs_type options sensitive h).0)
          (T.table h)
          (T.table (mount_sensitive_retry ns.host n source target fs_type options sensitive h).1)
  unfolding mount_sensitive_retry
  retry-Stages zero source target fs_type options sensitive h =
      mounts→stages target _ (T.table h) _
        (T.mount_sensitive_mounts source target fs_type options sensitive h)
  retry-Stages (suc n) source target fs_type options sensitive h =
      go (ns.host.mount_sensitive source target fs_type options sensitive h).0
        (T.mount_sensitive_mounts source target fs_type options sensitive h)
        (retry-Stages n source target fs_type options sensitive h')
    where
      h' : ns.host.State
      h' = (ns.host.mount_sensitive source target fs_type options sensitive h).1

      again : Result Unit × ns.host.State
      again = mount_sensitive_retry ns.host n source target fs_type options sensitive h'

      go :
          (r : Result Unit)
          → Mounts target (is_ok r) (T.table h) (T.table h')
          → Stages target (is_ok again.0) (T.table h') (T.table again.1)
          → Stages target
              (is_ok
                (elim r as (λ x. Result Unit × ns.host.State) [
                  | ok u ↦ (ok tt, h')
                  | err e ↦ again
                ]).0)
              (T.table h)
              (T.table
                (elim r as (λ x. Result Unit × ns.host.State) [
                  | ok u ↦ (ok tt, h')
                  | err e ↦ again
                ]).1)
      go (ok u) first later = mounts→stages target true (T.table h) (T.table h') first
      go (err e) first later =
          again_grows target (is_ok again.0) (T.table h) (T.table h') (T.table again.1) first later

  lifted-Keeps : {A : Type 0} (r : Result A) → Keeps S ns.host T (lift r)
  lifted-Keeps r = lift-Meets (beside S (keeps ns.host T)) r (any_beside S ns.host T r)

  mount_share-Does :
      (spec : NodeStageVolumeSpec) (username password domain : GoString)
      → Does S ns.host T
          (Stages spec.staging_target_path)
          (mount_share ns spec username password domain)
  unfolding mount_share
  mount_share-Does spec username password domain =
      search (mounting, lifted-Keeps, retry-Stages, stages_fail) depth 8

  grant-Keeps : (spec : SharePermissionSetSpec) (dsm : Dsm) → Keeps S ns.host T (grant ns spec dsm)
  unfolding grant
  grant-Keeps spec dsm =
      on_service-Meets (keeps ns.host T) (ns.service.share_permission_set spec dsm)
        (λ s. any-IsFine ns.host T _)

  permit_on-Keeps :
      (share user : GoString) (auth : AuthType) (dsm : Dsm)
      → Keeps S ns.host T (permit_on ns share user auth dsm)
  unfolding permit_on
  permit_on-Keeps share user auth dsm = search (disciplined, grant-Keeps, lifted-Keeps)

  permit_found :
      (share user : GoString) (auth : AuthType) (o : Option Dsm)
      → Keeps S ns.host T (elim o as (λ x. Exec (StateOf ns) Unit) [
        | none ↦ fail Error.errorf
        | some dsm ↦ permit_on ns share user auth dsm
      ])
  permit_found share user auth none = search disciplined
  permit_found share user auth (some dsm) = permit_on-Keeps share user auth dsm

  permission-Keeps :
      (source user : GoString) (auth : AuthType)
      → Keeps S ns.host T (set_smb_volume_permission ns source user auth)
  unfolding set_smb_volume_permission permit
  permission-Keeps source user auth =
      bind-Meets (beside S (keeps ns.host T)) (lift (source_parts source)) _
        (lifted-Keeps (source_parts source))
        λ parts. permit_found parts.1 user auth (ns.service.get_dsm parts.0)

  allowed-Keeps :
      (source username : GoString)
      → Keeps S ns.host T
          (or_status internal (set_smb_volume_permission ns source username auth_type_read_write))
  allowed-Keeps source username = search (disciplined, permission-Keeps)

  shared :
      (path : GoString) (m : Exec (StateOf ns) Unit)
      → Does S ns.host T (Stages path) m
      → (not_mount : Bool) (s : StateOf ns) → IsFree path not_mount (table_of S ns.host T s)
      → Stages path
          (is_ok ((if not_mount then m else pure tt) s).0)
          (table_of S ns.host T s)
          (table_of S ns.host T ((if not_mount then m else pure tt) s).1)
  unfolding plus
  shared path m h false s free = ((0, refl), λ e. occupied _ free)
  shared path m h true s free = h.does s

  stage_share-Does :
      (spec : NodeStageVolumeSpec) (username password domain : GoString)
      → Does S ns.host T
          (Stages spec.staging_target_path)
          (stage_share ns spec username password domain)
  unfolding stage_share
  stage_share-Does spec username password domain =
      let path = spec.staging_target_path in
      bind-Does S ns.host T (Stages path)
        (or_status internal
          (set_smb_volume_permission ns spec.source username auth_type_read_write))
        _ (allowed-Keeps spec.source username) (stages_fail path)
        λ u.
          ask-Does S ns.host T (Stages path) (IsFree path)
            (or_status internal (on_host (create_target_mount_path ns.host path false)))
            (λ not_mount.
              if not_mount then mount_share ns spec username password domain else pure tt)
            (created-Keeps ns T path false) (created-says ns T path false) (stages_fail path)
            (shared path (mount_share ns spec username password domain)
              (mount_share-Does spec username password domain))

  stage_secrets-Does :
      (spec : NodeStageVolumeSpec) (secrets : Option StringMap)
      → Does S ns.host T
          (Stages spec.staging_target_path)
          (elim secrets as (λ x. Exec (StateOf ns) Unit) [
            | none ↦ fail (status invalid_argument)
            | some m ↦
                stage_share ns spec
                  (trim is_space (at_key m (codes "username")))
                  (trim is_space (at_key m (codes "password")))
                  (trim is_space (at_key m (codes "domain")))
          ])
  stage_secrets-Does spec none =
      fail-Does S ns.host T (Stages spec.staging_target_path) (status invalid_argument)
        (stages_fail spec.staging_target_path)
  stage_secrets-Does spec (some m) = stage_share-Does spec _ _ _

  stage_smb_by :
      (block : Bool) (path : GoString) (m : Exec (StateOf ns) Unit)
      → Does S ns.host T (Stages path) m
      → Does S ns.host T
          (StagesFor block path)
          (if block then fail (status invalid_argument) else m)
  stage_smb_by true path m h = record { does = λ s. refl }
  stage_smb_by false path m h = record { does = h.does }

  pub stage_smb-Does :
      (spec : NodeStageVolumeSpec) (secrets : Option StringMap)
      → Does S ns.host T
          (StagesFor spec.volume_capability.block spec.staging_target_path)
          (node_stage_smb_volume ns spec secrets)
  unfolding node_stage_smb_volume
  stage_smb-Does spec secrets =
      let path = spec.staging_target_path in
      stage_smb_by spec.volume_capability.block path _ (
        if-Does S ns.host T (Stages path) (is_empty spec.source) (fail (status invalid_argument)) _
          (fail-Does S ns.host T (Stages path) (status invalid_argument) (stages_fail path))
          (stage_secrets-Does spec secrets))
