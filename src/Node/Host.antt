-- ===== src/Node/Host.antt =====
-- What lies outside the node server: commands (k8s.io/utils/exec), mounts (k8s.io/mount-utils), files and
-- statfs of the host, and the resolver (net).
use reference_guides.Base.{ℕ, ℤ, GoString, Bool, Option, List, Exec}
use reference_guides.Utils.{IpAddress}

-- The error of a command: an exit status (utilexec.ExitError), or that it could not be run.
pub data CommandError : Type 0 where
  exit_error : ℕ → CommandError
  not_run : CommandError

-- The combined output, and the error.
pub record CommandOutput : Type 0 where
  pub out : GoString
  pub error : Option CommandError

-- An error of the file system: os.IsNotExist or another.
pub data FileError : Type 0 where
  not_exist other_error : FileError

-- unix.Statfs_t, as far as it is read.
pub record Statfs : Type 0 where
  pub bavail : ℕ
  pub blocks : ℕ
  pub bfree : ℕ
  pub bsize : ℤ
  pub files : ℕ
  pub ffree : ℕ

pub record Host : Type 1 where
  pub State : Type 0
  -- A command with its arguments: CombinedOutput.
  pub run : List GoString → State → CommandOutput × State
  -- Output under a time limit in seconds; `none` where the limit was reached.
  pub run_within : ℕ → List GoString → State → Option CommandOutput × State
  -- net.LookupIP, with no address where it returns an error.
  pub look_up_ip : GoString → State → List IpAddress × State
  -- mount.PathExists
  pub path_exists : GoString → Exec State Bool
  -- os.Stat: the error is nil for `none`.
  pub stat : GoString → State → Option FileError × State
  -- os.OpenFile(path, os.O_CREATE|os.O_RDWR, 0750) and Close of what it opened.
  pub open_file : GoString → Exec State Unit
  pub close_file : GoString → Exec State Unit
  -- os.MkdirAll(path, 0750)
  pub mkdir_all : GoString → Exec State Unit
  -- os.Remove
  pub remove : GoString → Exec State Unit
  -- mount.IsNotMountPoint: whether the path is no mount point, and the error.
  pub is_not_mount_point : GoString → State → Bool × Option FileError × State
  -- Interface.IsLikelyNotMountPoint
  pub is_likely_not_mount_point : GoString → Exec State Bool
  -- Interface.Mount: source, target, type of the file system, options.
  pub mount : GoString → GoString → GoString → List GoString → Exec State Unit
  -- MountSensitive: the last list is that of the sensitive options.
  pub mount_sensitive :
      GoString → GoString → GoString → List GoString → List GoString → Exec State Unit
  -- FormatAndMountSensitiveWithFormatOptions without sensitive options: the last list is that of the
  -- format options.
  pub format_and_mount :
      GoString → GoString → GoString → List GoString → List GoString → Exec State Unit
  -- Interface.Unmount
  pub unmount : GoString → Exec State Unit
  -- NewResizeFs(…).Resize: device and path of the mount.
  pub resize_fs : GoString → GoString → Exec State Bool
  -- unix.Statfs
  pub statfs : GoString → Exec State Statfs
  -- The number of ticks that waitForDevicePathToExist takes before its timer, and of the repetitions that
  -- the backoff lets mountSensitiveWithRetry make.
  pub ticks : ℕ
  pub mount_retries : ℕ
