-- ===== src/Node/Calm/Tidy.antt =====
-- pkg/driver/nodeserver.go: a host whose calls return their errors, and the discipline that no error is a
-- run-time panic unless a command prints what is read with one.
use reference_guides.Base.{
  ℤ, GoString, codes, is_panic, Error, true, false, Option, none, some, List, [], ◌∷◌, Result, ok,
  err, errorf, Exec, if◌then◌else◌, ◌≡◌, refl, ◌≢◌, ◌⊎◌, inl, inr, Discipline, IsFine, Meets,
}
use reference_guides.WebApi.Types.{MappedLun, TargetInfo}
use reference_guides.Node.Host.{Host, CommandError, exit_error, not_run, CommandOutput}
use reference_guides.Node.Sessions.{IscsiSession, sessions_in, parse_sessions}
use reference_guides.Node.Devices.{Device, devices_in, parse_devices, is_ignored}
use reference_guides.Node.Target.{mapping_index_of}
use reference_guides.Node.Disciplined.Calls.{HostMeets}
use reference_guides.Node.Calm.Output.{
  NoPanic, TidySessions, TidyDevices, TidySessions-or, TidyDevices-or, parse_sessions-NoPanic,
  parse_devices-NoPanic,
}

-- Any state may follow, and no error is a panic, unless there is the excuse U.
abbrev pub calm : (S U : Type 0) → Discipline S
calm S U = record {
  Follows = λ s t. Unit;
  stays = λ s. tt;
  joins = λ s t u h k. tt;
  Fine = λ e. (is_panic e ≡ false) ⊎ U;
  fine_status = λ c. inl refl;
  fine_errorf = inl refl;
}

abbrev pub sessions_text : (H : Host) → H.State → GoString
sessions_text H s = (H.run (codes "iscsiadm" ∷ codes "-m" ∷ codes "session" ∷ []) s).0.out

abbrev pub devices_text : (H : Host) → List GoString → H.State → GoString
devices_text H paths s =
    (H.run
      (codes "lsblk"
        ∷ codes "-rn"
        ∷ codes "-o"
        ∷ codes "NAME,KNAME,PKNAME,HCTL,TYPE,TRAN,SIZE"
        ∷ paths)
      s).0.out

-- In some state `iscsiadm -m session` prints a session whose IQN has no colon, or lsblk a line with fewer
-- than the seven columns that it is asked for.
abbrev pub Untidy : Host → Type 0
Untidy H =
    (s : H.State) × ((TidySessions (sessions_text H s) → ⊥)
      ⊎ ((paths : List GoString) × (TidyDevices (devices_text H paths s) → ⊥)))

-- The calls of the host return their errors.
pub record CalmHost (H : Host) : Type 0 where
  pub path_exists_calm : (path : GoString) (s : H.State) → NoPanic (H.path_exists path s).0
  pub open_file_calm : (path : GoString) (s : H.State) → NoPanic (H.open_file path s).0
  pub close_file_calm : (path : GoString) (s : H.State) → NoPanic (H.close_file path s).0
  pub mkdir_all_calm : (path : GoString) (s : H.State) → NoPanic (H.mkdir_all path s).0
  pub remove_calm : (path : GoString) (s : H.State) → NoPanic (H.remove path s).0
  pub resize_fs_calm :
      (device path : GoString) (s : H.State) → NoPanic (H.resize_fs device path s).0
  pub likely_calm : (path : GoString) (s : H.State) → NoPanic (H.is_likely_not_mount_point path s).0
  pub unmount_calm : (path : GoString) (s : H.State) → NoPanic (H.unmount path s).0

NoPanic-IsFine : (S U : Type 0) {A : Type 0} (r : Result A) → NoPanic r → IsFine (calm S U) r
NoPanic-IsFine S U (ok a) h = tt
NoPanic-IsFine S U (err e) h = inl h

excused : (S U : Type 0) {A : Type 0} (r : Result A) → U → IsFine (calm S U) r
excused S U (ok a) u = tt
excused S U (err e) u = inr u

pub calm-Meets : {S U A : Type 0} (m : Exec S A) → ((s : S) → NoPanic (m s).0) → Meets (calm S U) m
calm-Meets {S} {U} m h = record { follows = λ s. tt; fine = λ s. NoPanic-IsFine S U (m s).0 (h s) }

sessions-NoPanic :
    (H : Host) (output : CommandOutput) → TidySessions output.out → NoPanic (sessions_in H output)
sessions-NoPanic H output h = go output.error
  where
    go :
        (e : Option CommandError)
        → NoPanic (elim e as (λ x. Result (List IscsiSession)) [
          | none ↦ parse_sessions output.out
          | some x ↦ ok []
        ])
    go none = parse_sessions-NoPanic output.out h
    go (some e) = tt

devices-NoPanic :
    (output : CommandOutput) → TidyDevices output.out → NoPanic (devices_in true output)
devices-NoPanic output h = go output.error
  where
    go :
        (e : Option CommandError)
        → NoPanic (elim e as (λ x. Result (List Device)) [
          | none ↦ parse_devices output.out
          | some x ↦ if is_ignored true x then parse_devices output.out else err errorf
        ])
    go none = parse_devices-NoPanic output.out h
    go (some (exit_error n)) = refl
    go (some not_run) = refl

pub tidy-HostMeets : (H : Host) → CalmHost H → HostMeets H (calm H.State (Untidy H))
tidy-HostMeets H T = record {
  run_follows = λ args s. tt;
  run_within_follows = λ n args s. tt;
  look_up_ip_follows = λ name s. tt;
  stat_follows = λ path s. tt;
  path_exists_meets = λ path. calm-Meets (H.path_exists path) (T.path_exists_calm path);
  open_file_meets = λ path. calm-Meets (H.open_file path) (T.open_file_calm path);
  close_file_meets = λ path. calm-Meets (H.close_file path) (T.close_file_calm path);
  mkdir_all_meets = λ path. calm-Meets (H.mkdir_all path) (T.mkdir_all_calm path);
  remove_meets = λ path. calm-Meets (H.remove path) (T.remove_calm path);
  resize_fs_meets = λ d path. calm-Meets (H.resize_fs d path) (T.resize_fs_calm d path);
  asks_follow = λ path s. tt;
  likely_meets = λ path. calm-Meets (H.is_likely_not_mount_point path) (T.likely_calm path);
  sessions_fine = λ s. elim (TidySessions-or (sessions_text H s)) [
    | inl tidy ↦ NoPanic-IsFine H.State (Untidy H) _ (sessions-NoPanic H _ tidy)
    | inr untidy ↦ excused H.State (Untidy H) _ (s, inl untidy)
  ];
  devices_fine = λ paths s. elim (TidyDevices-or (devices_text H paths s)) [
    | inl tidy ↦ NoPanic-IsFine H.State (Untidy H) _ (devices-NoPanic _ tidy)
    | inr untidy ↦ excused H.State (Untidy H) _ (s, inr (paths, untidy))
  ];
}

pub mapping-NoPanic :
    (target : TargetInfo) → target.mapped_luns ≢ [] → NoPanic (mapping_index_of target)
unfolding mapping_index_of
mapping-NoPanic target ne = go target.mapped_luns ne
  where
    go :
        (luns : List MappedLun)
        → luns ≢ []
        → NoPanic (elim luns as (λ x. Result ℤ) [
          | [] ↦ err Error.index_out_of_range
          | mapping ∷ more ↦ ok mapping.mapping_index
        ])
    go [] h = absurd (h refl)
    go (mapping ∷ more) h = tt
