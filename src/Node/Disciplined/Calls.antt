-- ===== src/Node/Disciplined/Calls.antt =====
-- What a discipline asks of the calls of the host.
use reference_guides.Base.{ℕ, GoString, codes, true, List, [], ◌∷◌, Discipline, IsFine, Meets}
use reference_guides.Node.Host.{Host}
use reference_guides.Node.Sessions.{sessions_in}
use reference_guides.Node.Devices.{devices_in}

-- The calls of the host but those that mount and unmount, and what is read from their output.
pub record HostMeets (H : Host) (D : Discipline H.State) : Type 0 where
  pub run_follows : (args : List GoString) (s : H.State) → D.Follows s (H.run args s).1
  pub run_within_follows :
      (n : ℕ) (args : List GoString) (s : H.State) → D.Follows s (H.run_within n args s).1
  pub look_up_ip_follows : (name : GoString) (s : H.State) → D.Follows s (H.look_up_ip name s).1
  pub stat_follows : (path : GoString) (s : H.State) → D.Follows s (H.stat path s).1
  pub path_exists_meets : (path : GoString) → Meets D (H.path_exists path)
  pub open_file_meets : (path : GoString) → Meets D (H.open_file path)
  pub close_file_meets : (path : GoString) → Meets D (H.close_file path)
  pub mkdir_all_meets : (path : GoString) → Meets D (H.mkdir_all path)
  pub remove_meets : (path : GoString) → Meets D (H.remove path)
  pub resize_fs_meets : (device path : GoString) → Meets D (H.resize_fs device path)
  pub asks_follow : (path : GoString) (s : H.State) → D.Follows s (H.is_not_mount_point path s).2
  pub likely_meets : (path : GoString) → Meets D (H.is_likely_not_mount_point path)
  pub sessions_fine :
      (s : H.State)
      → IsFine D (sessions_in H (H.run (codes "iscsiadm" ∷ codes "-m" ∷ codes "session" ∷ []) s).0)
  pub devices_fine :
      (paths : List GoString) (s : H.State)
      → IsFine D (
          devices_in true
            (H.run
              (codes "lsblk"
                ∷ codes "-rn"
                ∷ codes "-o"
                ∷ codes "NAME,KNAME,PKNAME,HCTL,TYPE,TRAN,SIZE"
                ∷ paths)
              s).0)
