-- ===== src/Node/Disciplined/Paths.antt =====
-- pkg/driver/multipath.go and nodeserver.go: the search for a volume's path under a discipline.
use reference_guides.Base.{
  ℕ, zero, suc, ℤ, GoString, codes, ◌==◌, Bool, true, Bool-cases, inl, inr, Option, none, some,
  List, [], ◌∷◌, Result, ok, err, ◌≡◌, refl, Discipline, IsFine, Meets, disciplined, bind-Meets,
  if-Meets, pure-Meets, pure,
}
use reference_guides.Node.Host.{Host, FileError, not_exist, other_error}
use reference_guides.Node.Devices.{
  lsblk, get_multipath_device, Device, device, no_device, one_more, info_of, shared_child, if_mpath,
}
use reference_guides.Node.Target.{
  wait_for_path, chosen_path, waited_path, get_volume_mount_path, get_existed_volume_mount_path,
}
use reference_guides.Node.Mounts.{
  asked, ask_not_mount_point, make_mount_point, mount_point_made, create_target_mount_path,
}
use reference_guides.Node.Disciplined.Calls.{HostMeets}
use reference_guides.Node.Disciplined.Commands.{list_sessions_by_iqn-Meets}

shared_child-IsFine :
    {S : Type 0} (D : Discipline S) (before : Option Device) (ds : List Device)
    → IsFine D (shared_child before ds)
unfolding shared_child
shared_child-IsFine D before [] = tt
shared_child-IsFine D before (device info no_device ∷ ds) = D.fine_errorf
shared_child-IsFine D before (device info (one_more x (one_more y ys)) ∷ ds) = D.fine_errorf
shared_child-IsFine D none (device info (one_more child no_device) ∷ ds) =
    shared_child-IsFine D (some child) ds
shared_child-IsFine D (some b) (device info (one_more child no_device) ∷ ds) =
    elim (Bool-cases ((info_of child).name == (info_of b).name)) [
      | inl t ↦ rw t (shared_child-IsFine D (some child) ds)
      | inr f ↦ rw f D.fine_errorf
    ]

if_mpath-IsFine :
    {S : Type 0} (D : Discipline S) (r : Result (Option Device))
    → IsFine D r
    → IsFine D (if_mpath r)
if_mpath-IsFine D (err e) h = h
if_mpath-IsFine D (ok none) h = D.fine_errorf
if_mpath-IsFine D (ok (some d)) h = elim (Bool-cases ((info_of d).device_type == codes "mpath")) [
  | inl t ↦ rw t tt
  | inr f ↦ rw f D.fine_errorf
]

get_multipath_device-IsFine :
    {S : Type 0} (D : Discipline S) (ds : List Device) → IsFine D (get_multipath_device ds)
unfolding get_multipath_device
get_multipath_device-IsFine D ds =
    if_mpath-IsFine D (shared_child none ds) (shared_child-IsFine D none ds)

module _ (H : Host) (D : Discipline H.State) (M : HostMeets H D) where
  pub lsblk-Meets : (paths : List GoString) → Meets D (lsblk H paths true)
  unfolding lsblk
  lsblk-Meets paths = record {
    follows = λ s.
        M.run_follows
          (codes "lsblk"
            ∷ codes "-rn"
            ∷ codes "-o"
            ∷ codes "NAME,KNAME,PKNAME,HCTL,TYPE,TRAN,SIZE"
            ∷ paths)
          s;
    fine = M.devices_fine paths;
  }

  pub wait_for_path-Meets : (ticks : ℕ) (path : GoString) → Meets D (wait_for_path H ticks path)
  unfolding wait_for_path
  wait_for_path-Meets zero path = search disciplined
  wait_for_path-Meets (suc ticks) path =
      bind-Meets D (H.path_exists path) _ (M.path_exists_meets path)
        (λ b. if-Meets D b _ _ (pure-Meets D tt) (wait_for_path-Meets ticks path))

  chosen_path-Meets : (paths : List GoString) → Meets D (chosen_path H paths)
  unfolding chosen_path
  chosen_path-Meets [] = search disciplined
  chosen_path-Meets (path ∷ []) = search disciplined
  chosen_path-Meets (path ∷ other ∷ paths) =
      search (disciplined, lsblk-Meets, get_multipath_device-IsFine D)

  waited_path-Meets : (found : Option GoString) → Meets D (waited_path H found)
  unfolding waited_path
  waited_path-Meets none = search disciplined
  waited_path-Meets (some path) = search (disciplined, wait_for_path-Meets)

  pub get_volume_mount_path-Meets :
      (paths : List GoString) → Meets D (get_volume_mount_path H paths)
  unfolding get_volume_mount_path
  get_volume_mount_path-Meets paths = search (disciplined, chosen_path-Meets, waited_path-Meets)

  pub get_existed_volume_mount_path-Meets :
      (iqn : GoString) (index : ℤ) → Meets D (get_existed_volume_mount_path H iqn index)
  unfolding get_existed_volume_mount_path
  get_existed_volume_mount_path-Meets iqn index =
      search (disciplined, list_sessions_by_iqn-Meets H D M, get_volume_mount_path-Meets)

  asked-IsFine : (b : Bool) (e : Option FileError) (s : H.State) → IsFine D (asked H (b, e, s)).0
  asked-IsFine b none s = tt
  asked-IsFine b (some e) s = D.fine_errorf

  asked-state : (b : Bool) (e : Option FileError) (s : H.State) → (asked H (b, e, s)).1 ≡ s
  asked-state b none s = refl
  asked-state b (some e) s = refl

  pub ask_not_mount_point-Meets : (path : GoString) → Meets D (ask_not_mount_point H path)
  ask_not_mount_point-Meets path = record {
    follows = λ s.
        let (b, e, s') = H.is_not_mount_point path s in
        rw (asked-state b e s') (M.asks_follow path s);
    fine = λ s. let (b, e, s') = H.is_not_mount_point path s in asked-IsFine b e s';
  }

  make_mount_point-Meets :
      (path : GoString) (is_block : Bool) → Meets D (make_mount_point H path is_block)
  unfolding make_mount_point
  make_mount_point-Meets path is_block =
      search (disciplined, M.open_file_meets, M.close_file_meets, M.mkdir_all_meets)

  made-follows :
      (path : GoString) (is_block b : Bool) (e : Option FileError) (s t : H.State)
      → D.Follows s t
      → D.Follows s (mount_point_made H path is_block (b, e, t)).1
  unfolding mount_point_made
  made-follows path is_block b none s t h = h
  made-follows path is_block b (some not_exist) s t h = D.joins s t _ h (
      (bind-Meets D (make_mount_point H path is_block) (λ u. pure true)
          (make_mount_point-Meets path is_block) (λ u. pure-Meets D true)).follows
        t)
  made-follows path is_block b (some other_error) s t h = h

  made-IsFine :
      (path : GoString) (is_block b : Bool) (e : Option FileError) (s : H.State)
      → IsFine D (mount_point_made H path is_block (b, e, s)).0
  unfolding mount_point_made
  made-IsFine path is_block b none s = tt
  made-IsFine path is_block b (some not_exist) s =
      (bind-Meets D (make_mount_point H path is_block) (λ u. pure true)
          (make_mount_point-Meets path is_block) (λ u. pure-Meets D true)).fine
        s
  made-IsFine path is_block b (some other_error) s = D.fine_errorf

  pub create_target_mount_path-Meets :
      (path : GoString) (is_block : Bool) → Meets D (create_target_mount_path H path is_block)
  unfolding create_target_mount_path
  create_target_mount_path-Meets path is_block = record {
    follows = λ s.
        let (b, e, t) = H.is_not_mount_point path s in
        made-follows path is_block b e s t (M.asks_follow path s);
    fine = λ s. let (b, e, t) = H.is_not_mount_point path s in made-IsFine path is_block b e t;
  }
