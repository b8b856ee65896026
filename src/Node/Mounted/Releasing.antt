-- ===== src/Node/Mounted/Releasing.antt =====
-- pkg/driver/nodeserver.go: what NodeUnpublishVolume and NodeUnstageVolume do to the mounts.
use reference_guides.Base.{
  ℕ, eqb, eqb_iff, GoString, is_empty, Bool, true, false, inr, Option, none, some, status,
  invalid_argument, internal, Exec, pure, fail, or_status, ValueHas, ◌>>=◌, ◌>>◌, if◌then◌else◌,
  ◌≡◌, refl, sym, disciplined, or_status-Meets,
}
use reference_guides.Node.Host.{Host, FileError, not_exist, other_error}
use reference_guides.Node.Server.{NodeServer, StateOf, on_host}
use reference_guides.Node.Mounts.{asked, ask_not_mount_point}
use reference_guides.Node.Publish.{
  stat_of, stat_path, unmount_and_remove, unpublish_path, handle_node_unpublish_volume,
}
use reference_guides.Node.Disciplined.Paths.{ask_not_mount_point-Meets}
use reference_guides.Node.Disciplined.Volumes.{on_host-Meets}
use reference_guides.Node.Mounted.Tables.{
  Table, Spec, Releases, is_ok, SaysOf, MountTable, keeps, table-HostMeets,
}
use reference_guides.Node.Mounted.Rules.{
  any_beside, table_of, Keeps, Does, mounting, ask-Does, then-Does, or_status-ValueHas,
}
use reference_guides.Node.Stage.{unmount_staged, handle_node_unstage_volume}
use reference_guides.Node.Target.{logout_target}
use reference_guides.Node.Disciplined.Volumes.{beside, logout_target-Meets}
use reference_guides.Node.Mounted.Publishing.{IsFree, releases_fail, released_none}

asked-says :
    (H : Host) (b : Bool) (e : Option FileError) (h : H.State) (n : ℕ)
    → SaysOf n b e
    → ValueHas (λ x. x ≡ eqb n 0) (asked H (b, e, h)).0
asked-says H b none h n says = says
asked-says H b (some e) h n says = tt

module _ (ns : NodeServer) (T : MountTable ns.host) where
  abbrev S : Type 0
  S = ns.service.State

  ask-says :
      (path : GoString) (s : StateOf ns)
      → ValueHas
          (λ b. IsFree path b (table_of S ns.host T s))
          (or_status internal (on_host (ask_not_mount_point ns.host path)) s).0
  ask-says path (s, h) =
      let (b, e, h') = ns.host.is_not_mount_point path h in
      let (r, h'') = asked ns.host (b, e, h') in
      or_status-ValueHas S ns.host T (λ x. IsFree path x (T.table h)) internal r (s, h'')
        (asked-says ns.host b e h' (T.table h path) (T.asks_right path h))

  ask-Keeps :
      (path : GoString)
      → Keeps S ns.host T (or_status internal (on_host (ask_not_mount_point ns.host path)))
  ask-Keeps path = search (
    disciplined,
    on_host-Meets,
    ask_not_mount_point-Meets ns.host (keeps ns.host T) (table-HostMeets ns.host T),
  )

  unmount-Does :
      (path : GoString)
      → Does S ns.host T (Releases path) (or_status internal (on_host (ns.host.unmount path)))
  unmount-Does path = search (mounting, T.unmount_releases)

  -- Where the path is no mount point there is nothing to take away.
  unmounted :
      (P : Spec) (path : GoString) (m : Exec (StateOf ns) Unit)
      → Does S ns.host T P m
      → ((t : Table) → true ≡ eqb (t path) 0 → P true t t)
      → (not_mount : Bool) (s : StateOf ns) → IsFree path not_mount (table_of S ns.host T s)
      → P
          (is_ok ((if not_mount then pure tt else m) s).0)
          (table_of S ns.host T s)
          (table_of S ns.host T ((if not_mount then pure tt else m) s).1)
  unmounted P path m h k false s free = h.does s
  unmounted P path m h k true s free = k (table_of S ns.host T s) free

  unmount_staged-Does :
      (path : GoString) → Does S ns.host T (Releases path) (unmount_staged ns path)
  unfolding unmount_staged
  unmount_staged-Does path =
      ask-Does S ns.host T (Releases path) (IsFree path)
        (or_status internal (on_host (ask_not_mount_point ns.host path)))
        (λ not_mount.
          if not_mount then pure tt else or_status internal (on_host (ns.host.unmount path)))
        (ask-Keeps path) (ask-says path) (releases_fail path)
        (unmounted (Releases path) path (or_status internal (on_host (ns.host.unmount path)))
          (unmount-Does path) (released_none path))

  logout-Keeps : (volume_id : GoString) → Keeps S ns.host T (logout_target ns volume_id)
  logout-Keeps volume_id =
      logout_target-Meets ns (keeps ns.host T) (table-HostMeets ns.host T) volume_id
        λ s v e t. any_beside S ns.host T _

  released :
      (path : GoString) (b : Bool) (t u : Table) → Releases path true t u → Releases path b t u
  released path true t u e = e
  released path false t u e = inr e

  then_released :
      (path : GoString) (m n : Exec (StateOf ns) Unit)
      → Does S ns.host T (Releases path) m
      → Keeps S ns.host T n
      → Does S ns.host T (Releases path) (m >> n)
  then_released path m n h k =
      then-Does S ns.host T (Releases path) (Releases path) m (λ u. n) h (λ u. k) (released path)
        (λ t u e. e)

  -- The two tests of the request.
  checked :
      (volume_id path : GoString) (m : Exec (StateOf ns) Unit)
      → Does S ns.host T (Releases path) m
      → Does S ns.host T (Releases path) (
          if is_empty volume_id
          then fail (status invalid_argument)
          else if is_empty path
          then fail (status invalid_argument)
          else m)
  checked volume_id path m h = search (mounting, releases_fail)

  pub unstage-Does :
      (volume_id path : GoString)
      → Does S ns.host T (Releases path) (handle_node_unstage_volume ns volume_id path)
  unfolding handle_node_unstage_volume
  unstage-Does volume_id path =
      checked volume_id path (unmount_staged ns path >> logout_target ns volume_id) (
        then_released path (unmount_staged ns path) (logout_target ns volume_id)
          (unmount_staged-Does path) (logout-Keeps volume_id))

  remove-Keeps :
      (path : GoString) → Keeps S ns.host T (or_status internal (on_host (ns.host.remove path)))
  remove-Keeps path = search (disciplined, on_host-Meets, (table-HostMeets ns.host T).remove_meets)

  unmount_and_remove-Does :
      (path : GoString) → Does S ns.host T (Releases path) (unmount_and_remove ns path)
  unfolding unmount_and_remove
  unmount_and_remove-Does path =
      then_released path (or_status internal (on_host (ns.host.unmount path)))
        (or_status internal (on_host (ns.host.remove path))) (unmount-Does path) (remove-Keeps path)

  unpublish_path-Does :
      (path : GoString) → Does S ns.host T (Releases path) (unpublish_path ns path)
  unfolding unpublish_path
  unpublish_path-Does path =
      ask-Does S ns.host T (Releases path) (IsFree path)
        (or_status internal (on_host (ask_not_mount_point ns.host path)))
        (λ not_mount. if not_mount then pure tt else unmount_and_remove ns path) (ask-Keeps path)
        (ask-says path) (releases_fail path)
        (unmounted (Releases path) path (unmount_and_remove ns path) (unmount_and_remove-Does path)
          (released_none path))

  -- Where os.Stat does not find the path, nothing is mounted there.
  abbrev MayMiss : GoString → Bool → Table → Type 0
  MayMiss path there t = there ≡ false → true ≡ eqb (t path) 0

  stat-says :
      (path : GoString) (s : StateOf ns)
      → ValueHas
          (λ there. MayMiss path there (table_of S ns.host T s))
          (or_status internal (stat_path ns path) s).0
  unfolding stat_path
  stat-says path (s, h) =
      or_status-ValueHas S ns.host T (λ there. MayMiss path there (T.table h)) internal
        (stat_of (ns.host.stat path h).0) (s, (ns.host.stat path h).1)
        (go (ns.host.stat path h).0 (T.stat_right path h))
    where
      go :
          (e : Option FileError)
          → (e ≡ some not_exist → T.table h path ≡ 0)
          → ValueHas (λ there. MayMiss path there (T.table h)) (stat_of e)
      go none k = λ f. cc
      go (some not_exist) k = λ f. sym ((eqb_iff (T.table h path) 0).1 (k refl))
      go (some other_error) k = tt

  stat-Keeps : (path : GoString) → Keeps S ns.host T (or_status internal (stat_path ns path))
  unfolding stat_path
  stat-Keeps path = or_status-Meets (beside S (keeps ns.host T)) internal (stat_path ns path) seen
    where
      seen : Keeps S ns.host T (stat_path ns path)
      seen = record { follows = λ s. T.stat_keeps path s.1; fine = λ s. any_beside S ns.host T _ }

  looked :
      (path : GoString) (there : Bool) (s : StateOf ns)
      → MayMiss path there (table_of S ns.host T s)
      → Releases path
          (is_ok ((if there then unpublish_path ns path else pure tt) s).0)
          (table_of S ns.host T s)
          (table_of S ns.host T ((if there then unpublish_path ns path else pure tt) s).1)
  looked path true s k = (unpublish_path-Does path).does s
  looked path false s k = released_none path (table_of S ns.host T s) (k refl)

  stat_first :
      (path : GoString)
      → Does S ns.host T (Releases path) (
          or_status internal (stat_path ns path) >>= λ there.
          if there then unpublish_path ns path else pure tt)
  stat_first path =
      ask-Does S ns.host T (Releases path) (MayMiss path) (or_status internal (stat_path ns path))
        (λ there. if there then unpublish_path ns path else pure tt) (stat-Keeps path)
        (stat-says path) (releases_fail path) (looked path)

  pub unpublish-Does :
      (volume_id path : GoString)
      → Does S ns.host T (Releases path) (handle_node_unpublish_volume ns volume_id path)
  unfolding handle_node_unpublish_volume
  unpublish-Does volume_id path =
      checked volume_id path
        (or_status internal (stat_path ns path) >>= λ there.
          if there then unpublish_path ns path else pure tt)
        (stat_first path)
