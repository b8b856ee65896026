-- ===== src/Node/Mounted/Publishing.antt =====
-- pkg/driver/nodeserver.go: what NodePublishVolume and NodeUnpublishVolume do to the mounts.
use reference_guides.Base.{
  ℕ, ◌≤◌, eqb, eqb_iff, GoString, ◌==◌, is_empty, Bool, true, false, Bool-cases, inl, inr, Option,
  none, some, List, status, invalid_argument, internal, Result, ok, err, Exec, pure, fail, continue,
  or_status, ValueHas, if◌then◌else◌, ◌||◌, ◌≡◌, refl, sym, ◌∙◌, fun_ext, ap, eq_iff, arith,
  disciplined,
}
use reference_guides.Node.Host.{FileError, not_exist, other_error}
use reference_guides.Node.Server.{NodeServer, StateOf, on_host}
use reference_guides.Node.Types.{VolumeCapability}
use reference_guides.Node.Target.{login_target, get_volume_mount_path}
use reference_guides.Node.Mounts.{make_mount_point, mount_point_made, create_target_mount_path}
use reference_guides.Node.Publish.{
  NodePublishVolumeRequest, bind_mount, publish_path, publish_iscsi, publish_mount, publish_with,
  handle_node_publish_volume,
}
use reference_guides.Node.Disciplined.Paths.{
  create_target_mount_path-Meets, get_volume_mount_path-Meets,
}
use reference_guides.Node.Disciplined.Volumes.{on_host-Meets}
use reference_guides.Node.Disciplined.Logins.{ServiceFine, login_target-Meets}
use reference_guides.Node.Mounted.Tables.{
  Table, minus_one, Mounts, Publishes, Releases, is_ok, SaysOf, MountTable, keeps, any-IsFine,
  table-HostMeets,
}
use reference_guides.Node.Mounted.Rules.{
  any_beside, table_of, Keeps, Does, mounting, ask-Does, or_status-ValueHas, fail-Does, if-Does,
}

abbrev pub IsFree : GoString → Bool → Table → Type 0
IsFree path not_mount t = not_mount ≡ eqb (t path) 0

mounts_fail : (path : GoString) (t : Table) → Mounts path false t t
mounts_fail path t = inl refl

publishes_fail : (path : GoString) (t : Table) → Publishes path false t t
publishes_fail path t = inl refl

-- A table without mounts on the path is what is left when one is taken away.
pub minus_none : (path : GoString) (t : Table) → t path ≡ 0 → t ≡ minus_one path t
minus_none path t e = fun_ext λ p. at p
  where
    at : (p : GoString) → t p ≡ minus_one path t p
    at p = elim (Bool-cases (p == path)) [
      | inl hit ↦
          let same : t p ≡ 0 = ap t ((eq_iff p path).0 hit) ∙ e in rw hit (omega (arith, same))
      | inr miss ↦ rw miss refl
    ]

pub released_none : (path : GoString) (t : Table) → true ≡ eqb (t path) 0 → Releases path true t t
released_none path t e = minus_none path t ((eqb_iff (t path) 0).0 (sym e))

pub releases_fail : (path : GoString) (t : Table) → Releases path false t t
releases_fail path t = inl refl

pub occupied : (n : ℕ) → false ≡ eqb n 0 → 1 ≤ n
occupied n e = ground arith

module _ (ns : NodeServer) (T : MountTable ns.host) where
  abbrev S : Type 0
  S = ns.service.State

  pub any_service : ServiceFine ns (keeps ns.host T)
  any_service = record {
    is_uc_fine = λ dsm s. any-IsFine ns.host T _;
    other_fine = λ dsm s. any-IsFine ns.host T _;
    permission_fine = λ spec dsm s. any-IsFine ns.host T _;
  }

  pub login_target-Keeps : (volume_id : GoString) → Keeps S ns.host T (login_target ns volume_id)
  login_target-Keeps volume_id =
      login_target-Meets ns (keeps ns.host T) (table-HostMeets ns.host T) any_service volume_id
        λ s v e. any_beside S ns.host T _

  bind_mount-Does :
      (req : NodePublishVolumeRequest) (source fs_type : GoString)
      → Does S ns.host T (Mounts req.target_path) (bind_mount ns req source fs_type)
  unfolding bind_mount
  bind_mount-Does req source fs_type = search (mounting, T.mount_mounts)

  publish_path-Does :
      (req : NodePublishVolumeRequest) (capability : VolumeCapability) (path : GoString)
      → Does S ns.host T (Mounts req.target_path) (publish_path ns req capability path)
  unfolding publish_path
  publish_path-Does req capability path = search (mounting, bind_mount-Does, mounts_fail)

  pub volume_path-Keeps :
      (paths : List GoString) → Keeps S ns.host T (on_host (get_volume_mount_path ns.host paths))
  volume_path-Keeps paths =
      on_host-Meets (keeps ns.host T) (get_volume_mount_path ns.host paths)
        (get_volume_mount_path-Meets ns.host (keeps ns.host T) (table-HostMeets ns.host T) paths)

  publish_iscsi-Does :
      (req : NodePublishVolumeRequest) (capability : VolumeCapability)
      → Does S ns.host T (Mounts req.target_path) (publish_iscsi ns req capability)
  unfolding publish_iscsi
  publish_iscsi-Does req capability =
      search
        (
          mounting, disciplined, publish_path-Does, login_target-Keeps, volume_path-Keeps,
          mounts_fail,
        )
        depth 8

  publish_mount-Does :
      (req : NodePublishVolumeRequest) (capability : VolumeCapability)
      → Does S ns.host T (Mounts req.target_path) (publish_mount ns req capability)
  unfolding publish_mount
  publish_mount-Does req capability = search (mounting, publish_iscsi-Does, bind_mount-Does)

  -- What was made is no mount point.
  made_true :
      (r : Result Unit) (h : ns.host.State) (n : ℕ)
      → n ≡ 0
      → ValueHas (λ b. b ≡ eqb n 0) (continue (λ u. pure true) (r, h)).0
  made_true (ok u) h n e = sym ((eqb_iff n 0).1 e)
  made_true (err x) h n e = tt

  made-says :
      (path : GoString) (is_block b : Bool) (e : Option FileError) (h : ns.host.State) (n : ℕ)
      → SaysOf n b e
      → ValueHas (λ x. x ≡ eqb n 0) (mount_point_made ns.host path is_block (b, e, h)).0
  unfolding mount_point_made
  made-says path is_block b none h n says = says
  made-says path is_block b (some not_exist) h n says =
      made_true (make_mount_point ns.host path is_block h).0
        (make_mount_point ns.host path is_block h).1 n says
  made-says path is_block b (some other_error) h n says = tt

  pub created-says :
      (path : GoString) (is_block : Bool) (s : StateOf ns)
      → ValueHas
          (λ b. IsFree path b (table_of S ns.host T s))
          (or_status internal (on_host (create_target_mount_path ns.host path is_block)) s).0
  unfolding create_target_mount_path
  created-says path is_block (s, h) =
      let (b, e, h') = ns.host.is_not_mount_point path h in
      let (r, h'') = mount_point_made ns.host path is_block (b, e, h') in
      or_status-ValueHas S ns.host T (λ x. IsFree path x (T.table h)) internal r (s, h'')
        (made-says path is_block b e h' (T.table h path) (T.asks_right path h))

  pub created-Keeps :
      (path : GoString) (is_block : Bool)
      → Keeps S ns.host T
          (or_status internal (on_host (create_target_mount_path ns.host path is_block)))
  created-Keeps path is_block = search (
    disciplined,
    on_host-Meets,
    create_target_mount_path-Meets ns.host (keeps ns.host T) (table-HostMeets ns.host T),
  )

  published :
      (path : GoString) (m : Exec (StateOf ns) Unit)
      → Does S ns.host T (Mounts path) m
      → (not_mount : Bool) (s : StateOf ns) → IsFree path not_mount (table_of S ns.host T s)
      → Publishes path
          (is_ok ((if not_mount then m else pure tt) s).0)
          (table_of S ns.host T s)
          (table_of S ns.host T ((if not_mount then m else pure tt) s).1)
  published path m h false s free = inl (refl, occupied _ free)
  published path m h true s free = go (is_ok (m s).0) (h.does s)
    where
      go :
          (b : Bool)
          → Mounts path b (table_of S ns.host T s) (table_of S ns.host T (m s).1)
          → Publishes path b (table_of S ns.host T s) (table_of S ns.host T (m s).1)
      go true e = inr (e, (eqb_iff _ 0).0 (sym free))
      go false (inl e) = inl e
      go false (inr e) = inr (e, (eqb_iff _ 0).0 (sym free))

  publish_with-Does :
      (req : NodePublishVolumeRequest) (capability : VolumeCapability)
      → Does S ns.host T (Publishes req.target_path) (publish_with ns req capability)
  unfolding publish_with
  publish_with-Does req capability =
      ask-Does S ns.host T (Publishes req.target_path) (IsFree req.target_path)
        (or_status internal
          (on_host (create_target_mount_path ns.host req.target_path capability.block)))
        (λ not_mount. if not_mount then publish_mount ns req capability else pure tt)
        (created-Keeps req.target_path capability.block)
        (created-says req.target_path capability.block) (publishes_fail req.target_path)
        (published req.target_path (publish_mount ns req capability)
          (publish_mount-Does req capability))

  publish_checked :
      (req : NodePublishVolumeRequest) (o : Option VolumeCapability)
      → Does S ns.host T (Publishes req.target_path) (elim o as (λ x. Exec (StateOf ns) Unit) [
        | none ↦ fail (status invalid_argument)
        | some capability ↦ publish_with ns req capability
      ])
  publish_checked req none = search (mounting, publishes_fail)
  publish_checked req (some capability) = publish_with-Does req capability

  pub publish-Does :
      (req : NodePublishVolumeRequest)
      → Does S ns.host T (Publishes req.target_path) (handle_node_publish_volume ns req)
  unfolding handle_node_publish_volume
  publish-Does req =
      if-Does S ns.host T (Publishes req.target_path)
        (is_empty req.volume_id || is_empty req.target_path || is_empty req.staging_target_path)
        (fail (status invalid_argument)) _
        (fail-Does S ns.host T (Publishes req.target_path) (status invalid_argument)
          (publishes_fail req.target_path))
        (publish_checked req req.volume_capability)
