-- ===== src/Node/Mounted/Lun.antt =====
-- pkg/driver/nodeserver.go: what staging a LUN does to the mounts.
use reference_guides.Base.{
  ◌≤◌, GoString, is_empty, Bool, true, false, inl, inr, status, internal, Exec, pure, fail,
  or_status, ValueHas, ◌>>=◌, if◌then◌else◌, ◌≡◌, refl, sym, subst, eq_refl, arith, disciplined,
}
use reference_guides.Node.Server.{NodeServer, StateOf, on_host}
use reference_guides.Node.Target.{login_target, get_volume_mount_path}
use reference_guides.Node.Disciplined.Volumes.{on_host-Meets}
use reference_guides.Node.Mounted.Tables.{
  Table, Spec, Mounts, plus, plus_one, is_ok, MountTable, table-HostMeets,
}
use reference_guides.Node.Mounted.Rules.{
  table_of, Keeps, Does, mounting, ask-Does, or_status-ValueHas, if-Does,
}
use reference_guides.Node.Types.{NodeStageVolumeSpec}
use reference_guides.Node.Stage.{format_and_mount, stage_path, node_stage_iscsi_volume}
use reference_guides.Node.Mounted.Tables.{Stages}
use reference_guides.Node.Mounted.Publishing.{login_target-Keeps, volume_path-Keeps}

-- A block volume is not mounted where it is staged.
abbrev pub StagesFor : Bool → GoString → Spec
StagesFor true path ok_or_not before after = after ≡ before
StagesFor false path ok_or_not before after = Stages path ok_or_not before after

pub stages_fail : (path : GoString) (t : Table) → Stages path false t t
unfolding plus
stages_fail path t = ((0, refl), λ e. cc)

pub stages_for_fail : (block : Bool) (path : GoString) (t : Table) → StagesFor block path false t t
stages_for_fail true path t = refl
stages_for_fail false path t = stages_fail path t

there_after : (path : GoString) (t : Table) → 1 ≤ plus_one path t path
there_after path t = rw (eq_refl path) (omega arith)

pub mounts→stages :
    (path : GoString) (b : Bool) (t u : Table) → Mounts path b t u → Stages path b t u
unfolding plus
mounts→stages path true t u e =
    ((1, e), λ x. subst (λ (w : Table). 1 ≤ w path) (sym e) (there_after path t))
mounts→stages path false t u (inl e) = ((0, e), λ x. cc)
mounts→stages path false t u (inr e) = ((1, e), λ x. cc)

module _ (ns : NodeServer) (T : MountTable ns.host) where
  abbrev S : Type 0
  S = ns.service.State

  format_and_mount-Does :
      (spec : NodeStageVolumeSpec) (path : GoString)
      → Does S ns.host T (Mounts spec.staging_target_path) (format_and_mount ns spec path)
  unfolding format_and_mount
  format_and_mount-Does spec path = search (mounting, T.format_and_mount_mounts)

  abbrev MayHold : GoString → Bool → Table → Type 0
  MayHold path not_mount t = not_mount ≡ false → 1 ≤ t path

  likely-Keeps :
      (path : GoString)
      → Keeps S ns.host T (or_status internal (on_host (ns.host.is_likely_not_mount_point path)))
  likely-Keeps path = search (disciplined, on_host-Meets, (table-HostMeets ns.host T).likely_meets)

  likely-says :
      (path : GoString) (s : StateOf ns)
      → ValueHas
          (λ b. MayHold path b (table_of S ns.host T s))
          (or_status internal (on_host (ns.host.is_likely_not_mount_point path)) s).0
  likely-says path (s, h) =
      or_status-ValueHas S ns.host T (λ b. MayHold path b (T.table h)) internal
        (ns.host.is_likely_not_mount_point path h).0
        (s, (ns.host.is_likely_not_mount_point path h).1) (T.likely_right path h)

  staged :
      (path : GoString) (m : Exec (StateOf ns) Unit)
      → Does S ns.host T (Mounts path) m
      → (not_mount : Bool) (s : StateOf ns) → MayHold path not_mount (table_of S ns.host T s)
      → Stages path
          (is_ok ((if not_mount then m else pure tt) s).0)
          (table_of S ns.host T s)
          (table_of S ns.host T ((if not_mount then m else pure tt) s).1)
  unfolding plus
  staged path m h false s holds = ((0, refl), λ e. holds refl)
  staged path m h true s holds =
      mounts→stages path (is_ok (m s).0) (table_of S ns.host T s) (table_of S ns.host T (m s).1)
        (h.does s)

  stage_path-Does :
      (spec : NodeStageVolumeSpec) (path : GoString)
      → Does S ns.host T (Stages spec.staging_target_path) (stage_path ns spec path)
  unfolding stage_path
  stage_path-Does spec path =
      if-Does S ns.host T (Stages spec.staging_target_path) (is_empty path) (fail (status internal))
        _ (search (mounting, stages_fail))
        (ask-Does S ns.host T (Stages spec.staging_target_path) (MayHold spec.staging_target_path)
          (or_status internal
            (on_host (ns.host.is_likely_not_mount_point spec.staging_target_path)))
          (λ not_mount. if not_mount then format_and_mount ns spec path else pure tt)
          (likely-Keeps spec.staging_target_path) (likely-says spec.staging_target_path)
          (stages_fail spec.staging_target_path)
          (staged spec.staging_target_path (format_and_mount ns spec path)
            (format_and_mount-Does spec path)))

  stage_lun-Does :
      (spec : NodeStageVolumeSpec)
      → Does S ns.host T (Stages spec.staging_target_path) (
          or_status internal (login_target ns spec.volume_id) >>= λ paths.
          on_host (get_volume_mount_path ns.host paths) >>= λ path. stage_path ns spec path)
  stage_lun-Does spec =
      search
        (
          mounting,
          disciplined,
          stage_path-Does,
          login_target-Keeps ns T,
          volume_path-Keeps ns T,
          stages_fail,
        )
        depth 8

  unless_block :
      (block : Bool) (path : GoString) (m : Exec (StateOf ns) Unit)
      → Does S ns.host T (Stages path) m
      → Does S ns.host T (StagesFor block path) (if block then pure tt else m)
  unless_block true path m h = record { does = λ s. refl }
  unless_block false path m h = record { does = h.does }

  pub stage_iscsi-Does :
      (spec : NodeStageVolumeSpec)
      → Does S ns.host T
          (StagesFor spec.volume_capability.block spec.staging_target_path)
          (node_stage_iscsi_volume ns spec)
  unfolding node_stage_iscsi_volume
  stage_iscsi-Does spec =
      unless_block spec.volume_capability.block spec.staging_target_path _ (stage_lun-Does spec)
