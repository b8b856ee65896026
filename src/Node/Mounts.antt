-- ===== src/Node/Mounts.antt =====
-- pkg/driver/nodeserver.go: mount points that are made, and a mount that is repeated.
use reference_guides.Base.{
  ℕ, zero, suc, GoString, Bool, true, Option, none, some, List, Result, ok, err, errorf, Exec, pure,
  ◌>>◌, if◌then◌else◌,
}
use reference_guides.Node.Host.{Host, FileError, not_exist, other_error}

module _ (H : Host) where
  open H use {State, is_not_mount_point, open_file, close_file, mkdir_all, mount_sensitive}

  -- A mount point that is not there is made: a file for a block device, else a directory.
  unfoldable pub make_mount_point : GoString → Bool → Exec State Unit
  make_mount_point path is_block =
      if is_block then open_file path >> close_file path else mkdir_all path

  unfoldable pub mount_point_made :
      GoString → Bool → Bool × Option FileError × State → Result Bool × State
  unfolding make_mount_point
  mount_point_made path is_block (not_mount, none, s) = (ok not_mount, s)
  mount_point_made path is_block (not_mount, some not_exist, s) =
      (make_mount_point path is_block >> pure true) s
  mount_point_made path is_block (not_mount, some other_error, s) = (err errorf, s)

  -- createTargetMountPath: whether the path is no mount point.
  unfoldable pub create_target_mount_path : GoString → Bool → Exec State Bool
  unfolding mount_point_made
  create_target_mount_path path is_block s =
      mount_point_made path is_block (is_not_mount_point path s)

  -- mount.IsNotMountPoint with its error.
  abbrev pub asked : Bool × Option FileError × State → Result Bool × State
  asked (not_mount, none, s) = (ok not_mount, s)
  asked (not_mount, some e, s) = (err errorf, s)

  abbrev pub ask_not_mount_point : GoString → Exec State Bool
  ask_not_mount_point path s = asked (is_not_mount_point path s)

  -- mountSensitiveWithRetry, with the number of repetitions that are left.
  unfoldable pub mount_sensitive_retry :
      ℕ → GoString → GoString → GoString → List GoString → List GoString → Exec State Unit
  mount_sensitive_retry zero source target fs_type options sensitive s =
      mount_sensitive source target fs_type options sensitive s
  mount_sensitive_retry (suc n) source target fs_type options sensitive s =
      let again = mount_sensitive_retry n source target fs_type options sensitive in
      let (r, s') = mount_sensitive source target fs_type options sensitive s in
      elim r [ ok u ↦ (ok tt, s') | err e ↦ again s' ]
