-- ===== src/Node/Mounted/Tables.antt =====
-- pkg/driver/nodeserver.go: the mounts of a host as a table, and what a call does to the table.
use reference_guides.Base.{
  ℕ, zero, suc, ◌-◌, ◌≤◌, eqb, GoString, ◌==◌, Bool, true, false, Option, none, some, List, Result,
  ok, err, ValueHas, ◌≡◌, refl, ◌∙◌, ◌⊎◌, Exec, Discipline, IsFine, Meets, if◌then◌else◌,
}
use reference_guides.Node.Host.{Host, FileError, not_exist, other_error}
use reference_guides.Node.Disciplined.Calls.{HostMeets}

-- How many file systems are mounted on a path, one upon the other.
abbrev pub Table : Type 0
Table = GoString → ℕ

abbrev pub plus_one : GoString → Table → Table
plus_one path t p = if p == path then suc (t p) else t p

abbrev pub minus_one : GoString → Table → Table
minus_one path t p = if p == path then t p - 1 else t p

-- What a call may do to the table; the flag says whether it succeeded.
abbrev pub Spec : Type 1
Spec = Bool → Table → Table → Type 0

-- What mounting does: one file system more on the path; a bind mount whose second step fails is an error
-- and stays.
abbrev pub Mounts : GoString → Spec
Mounts path true before after = after ≡ plus_one path before
Mounts path false before after = (after ≡ before) ⊎ (after ≡ plus_one path before)

-- What a call that publishes may do: where nothing is mounted on the path, one file system more, also
-- where the call fails; else nothing.
abbrev pub Publishes : GoString → Spec
Publishes path true before after =
    ((after ≡ before) × (1 ≤ before path)) ⊎ ((after ≡ plus_one path before) × (before path ≡ 0))
Publishes path false before after =
    (after ≡ before) ⊎ ((after ≡ plus_one path before) × (before path ≡ 0))

-- Some file systems more on the path.
unfoldable pub plus : ℕ → GoString → Table → Table
plus zero path t = t
plus (suc k) path t = plus k path (plus_one path t)

abbrev pub Grows : GoString → Table → Table → Type 0
Grows path before after = (k : ℕ) × (after ≡ plus k path before)

-- What a call that stages may do, whose mounts are repeated: some file systems more on the path, of which
-- it has at least one where the call succeeds.
abbrev pub Stages : GoString → Spec
Stages path ok_or_not before after = Grows path before after × (ok_or_not ≡ true → 1 ≤ after path)

-- What unmounting does, and a call that unmounts: one file system less, or an error with nothing taken away
-- or one file system less.
abbrev pub Releases : GoString → Spec
Releases path true before after = after ≡ minus_one path before
Releases path false before after = (after ≡ before) ⊎ (after ≡ minus_one path before)

abbrev pub is_ok : {A : Type 0} → Result A → Bool
is_ok (ok a) = true
is_ok (err e) = false

-- What mount.IsNotMountPoint says of the number of mounts on the path.
abbrev pub SaysOf : ℕ → Bool → Option FileError → Type 0
SaysOf n not_mount none = not_mount ≡ eqb n 0
SaysOf n not_mount (some not_exist) = n ≡ 0
SaysOf n not_mount (some other_error) = Unit

-- A host with a table of mounts: mounting and unmounting change it at the path that they are given, other
-- calls leave it, and the questions about mount points and about paths that are not there are answered
-- from it.
pub record MountTable (H : Host) : Type 0 where
  pub table : H.State → Table
  pub run_keeps : (args : List GoString) (s : H.State) → table (H.run args s).1 ≡ table s
  pub run_within_keeps :
      (n : ℕ) (args : List GoString) (s : H.State) → table (H.run_within n args s).1 ≡ table s
  pub look_up_ip_keeps : (name : GoString) (s : H.State) → table (H.look_up_ip name s).1 ≡ table s
  pub stat_keeps : (path : GoString) (s : H.State) → table (H.stat path s).1 ≡ table s
  pub path_exists_keeps : (path : GoString) (s : H.State) → table (H.path_exists path s).1 ≡ table s
  pub open_file_keeps : (path : GoString) (s : H.State) → table (H.open_file path s).1 ≡ table s
  pub close_file_keeps : (path : GoString) (s : H.State) → table (H.close_file path s).1 ≡ table s
  pub mkdir_all_keeps : (path : GoString) (s : H.State) → table (H.mkdir_all path s).1 ≡ table s
  pub remove_keeps : (path : GoString) (s : H.State) → table (H.remove path s).1 ≡ table s
  pub resize_fs_keeps :
      (device path : GoString) (s : H.State) → table (H.resize_fs device path s).1 ≡ table s
  pub asks_keep : (path : GoString) (s : H.State) → table (H.is_not_mount_point path s).2 ≡ table s
  pub likely_keeps :
      (path : GoString) (s : H.State) → table (H.is_likely_not_mount_point path s).1 ≡ table s
  pub asks_right :
      (path : GoString) (s : H.State)
      → SaysOf (table s path) (H.is_not_mount_point path s).0 (H.is_not_mount_point path s).1
  pub likely_right :
      (path : GoString) (s : H.State)
      → ValueHas
          (λ not_mount. not_mount ≡ false → 1 ≤ table s path)
          (H.is_likely_not_mount_point path s).0
  pub stat_right :
      (path : GoString) (s : H.State) → (H.stat path s).0 ≡ some not_exist → table s path ≡ 0
  pub mount_mounts :
      (source target fs_type : GoString) (options : List GoString) (s : H.State)
      → Mounts target
          (is_ok (H.mount source target fs_type options s).0)
          (table s)
          (table (H.mount source target fs_type options s).1)
  pub mount_sensitive_mounts :
      (source target fs_type : GoString) (options sensitive : List GoString) (s : H.State)
      → Mounts target
          (is_ok (H.mount_sensitive source target fs_type options sensitive s).0)
          (table s)
          (table (H.mount_sensitive source target fs_type options sensitive s).1)
  pub format_and_mount_mounts :
      (source target fs_type : GoString) (options formats : List GoString) (s : H.State)
      → Mounts target
          (is_ok (H.format_and_mount source target fs_type options formats s).0)
          (table s)
          (table (H.format_and_mount source target fs_type options formats s).1)
  pub unmount_releases :
      (path : GoString) (s : H.State)
      → Releases path (is_ok (H.unmount path s).0) (table s) (table (H.unmount path s).1)

module _ (H : Host) (T : MountTable H) where
  -- The table stays as it is; every error is allowed.
  abbrev pub keeps : Discipline H.State
  keeps = record {
    Follows = λ s t. T.table t ≡ T.table s;
    stays = λ s. refl;
    joins = λ s t u h k. k ∙ h;
    Fine = λ e. Unit;
    fine_status = λ c. tt;
    fine_errorf = tt;
  }

  pub any-IsFine : {A : Type 0} (r : Result A) → IsFine keeps r
  any-IsFine (ok a) = tt
  any-IsFine (err e) = tt

  kept :
      {A : Type 0} (m : Exec H.State A)
      → ((s : H.State) → T.table (m s).1 ≡ T.table s)
      → Meets keeps m
  kept m h = record { follows = h; fine = λ s. any-IsFine (m s).0 }

  pub table-HostMeets : HostMeets H keeps
  table-HostMeets = record {
    run_follows = T.run_keeps;
    run_within_follows = T.run_within_keeps;
    look_up_ip_follows = T.look_up_ip_keeps;
    stat_follows = T.stat_keeps;
    path_exists_meets = λ path. kept (H.path_exists path) (T.path_exists_keeps path);
    open_file_meets = λ path. kept (H.open_file path) (T.open_file_keeps path);
    close_file_meets = λ path. kept (H.close_file path) (T.close_file_keeps path);
    mkdir_all_meets = λ path. kept (H.mkdir_all path) (T.mkdir_all_keeps path);
    remove_meets = λ path. kept (H.remove path) (T.remove_keeps path);
    resize_fs_meets = λ d path. kept (H.resize_fs d path) (T.resize_fs_keeps d path);
    asks_follow = T.asks_keep;
    likely_meets = λ path. kept (H.is_likely_not_mount_point path) (T.likely_keeps path);
    sessions_fine = λ s. any-IsFine _;
    devices_fine = λ paths s. any-IsFine _;
  }
