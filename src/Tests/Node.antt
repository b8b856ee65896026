-- ===== src/Tests/Node.antt =====
-- The node server over the DSM of Fixture, on a host that is no more than its table of mounts.
use reference_guides.Base.{
  ℕ, eqb, codes, GoString, ◌==◌, ◌≡◌, ◌≤◌, ◌↔◌, refl, true, false, All, Option, none, some, List,
  [], ◌∷◌, ok, err, errorf, arith, if◌then◌else◌,
}
use reference_guides.NodeService.{node_service}
use reference_guides.Node.Host.{Host, CommandOutput, FileError, not_exist}
use reference_guides.Node.Devices.{Device, device, no_device, one_more, get_multipath_device}
use reference_guides.Node.Devices.Shared.{HasOnlyChild, LastChild, get_multipath_device_iff}
use reference_guides.Node.Server.{NodeServer}
use reference_guides.Node.Sessions.{parse_sessions}
use reference_guides.Node.Publish.{NodePublishVolumeRequest}
use reference_guides.Node.Stats.{NodeExpandVolumeRequest}
use reference_guides.Node.Calm.Output.{NoPanic, TidySessions, parse_sessions-NoPanic_iff}
use reference_guides.Node.Calm.Tidy.{CalmHost}
use reference_guides.Node.Mounted.Tables.{Table, plus_one, minus_one, is_ok, MountTable}
use reference_guides.Node.Mounted.Calls.{
  NodeCall, publish_volume, unpublish_volume, handle_node, handle_all, allowed,
  handle_node_refines_table, handle_all-AtMostOne,
}
use reference_guides.Tests.Fixture.{nas, backend}

abbrev output : List GoString → CommandOutput
output [] = record { out = []; error = none }
output (program ∷ args) = record {
  out = if program == codes "lsblk" then codes "sda sda  0:0:0:0 disk iscsi 1G" else [];
  error = none;
}

abbrev pub host : Host
host = record {
  State = Table;
  run = λ args s. (output args, s);
  run_within = λ n args s. (none, s);
  look_up_ip = λ name s. ([], s);
  path_exists = λ path s. (ok true, s);
  stat = λ path s. (none, s);
  open_file = λ path s. (ok tt, s);
  close_file = λ path s. (ok tt, s);
  mkdir_all = λ path s. (ok tt, s);
  remove = λ path s. (ok tt, s);
  is_not_mount_point = λ path s. (eqb (s path) 0, none, s);
  is_likely_not_mount_point = λ path s. (ok (eqb (s path) 0), s);
  mount = λ source target fs_type options s. (ok tt, plus_one target s);
  mount_sensitive = λ source target fs_type options sensitive s. (ok tt, plus_one target s);
  format_and_mount = λ source target fs_type options formats s. (ok tt, plus_one target s);
  unmount = λ path s. (ok tt, minus_one path s);
  resize_fs = λ device path s. (ok true, s);
  statfs = λ path s. (err errorf, s);
  ticks = 3;
  mount_retries = 1;
}

some_there : (n : ℕ) → eqb n 0 ≡ false → 1 ≤ n
some_there n e = ground arith

never : {n : ℕ} → ◌≡◌ {A = Option FileError} none (some not_exist) → n ≡ 0
never e = cc

abbrev host_table : MountTable host
host_table = record {
  table = λ s. s;
  run_keeps = λ args s. refl;
  run_within_keeps = λ n args s. refl;
  look_up_ip_keeps = λ name s. refl;
  stat_keeps = λ path s. refl;
  path_exists_keeps = λ path s. refl;
  open_file_keeps = λ path s. refl;
  close_file_keeps = λ path s. refl;
  mkdir_all_keeps = λ path s. refl;
  remove_keeps = λ path s. refl;
  resize_fs_keeps = λ device path s. refl;
  asks_keep = λ path s. refl;
  likely_keeps = λ path s. refl;
  asks_right = λ path s. refl;
  likely_right = λ path s. some_there (s path);
  stat_right = λ path s e. never e;
  mount_mounts = λ source target fs_type options s. refl;
  mount_sensitive_mounts = λ source target fs_type options sensitive s. refl;
  format_and_mount_mounts = λ source target fs_type options formats s. refl;
  unmount_releases = λ path s. refl;
}

abbrev calm_host : CalmHost host
calm_host = record {
  path_exists_calm = λ path s. tt;
  open_file_calm = λ path s. tt;
  close_file_calm = λ path s. tt;
  mkdir_all_calm = λ path s. tt;
  remove_calm = λ path s. tt;
  resize_fs_calm = λ device path s. tt;
  likely_calm = λ path s. tt;
  unmount_calm = λ path s. tt;
}

abbrev node : NodeServer
node = record { service = node_service backend (nas ∷ []); host = host; multipath_enabled = false }

abbrev pub bare : Table
bare path = 0

abbrev expansion : NodeExpandVolumeRequest
expansion = record {
  volume_id = codes "u";
  volume_path = codes "/p";
  capacity_range = none;
  volume_capability = none;
}

-- The session of a target whose name has no colon.
abbrev foreign : GoString
foreign = codes "tcp: [1] 10.0.0.7:3260,1 iqn.2001-04.com.example (non-flash)\n"

parse_sessions-NoPanic_iff_example : NoPanic (parse_sessions foreign) ↔ TidySessions foreign
parse_sessions-NoPanic_iff_example = parse_sessions-NoPanic_iff foreign

abbrev publication : NodePublishVolumeRequest
publication = record {
  volume_id = codes "u";
  target_path = codes "/p";
  staging_target_path = codes "/s";
  volume_capability = some (record { block = false; mount = none });
  readonly = true;
  volume_context = (codes "protocol", codes "smb") ∷ [];
}

handle_node_refines_table_example :
    allowed
      (publish_volume publication)
      (is_ok (handle_node node (publish_volume publication) (true, bare)).0)
      bare
      (handle_node node (publish_volume publication) (true, bare)).1.1
handle_node_refines_table_example =
    handle_node_refines_table node host_table (publish_volume publication) (true, bare)

abbrev calls : List NodeCall
calls =
    publish_volume publication
    ∷ publish_volume publication
    ∷ unpublish_volume (codes "u") (codes "/p")
    ∷ []

handle_all-AtMostOne_example : (handle_all node calls (true, bare)).1 (codes "/p") ≤ 1
handle_all-AtMostOne_example =
    handle_all-AtMostOne node host_table (codes "/p") calls (true, bare) (refl, (refl, (refl, tt)))
      (omega arith)

abbrev mpath : Device
mpath =
    device
      (record {
        name = codes "mpatha";
        hctl = [];
        device_type = codes "mpath";
        transport = [];
        size = codes "1G";
      })
      no_device

abbrev disks : List Device
disks =
    device
      (record {
        name = codes "sda";
        hctl = codes "0:0:0:0";
        device_type = codes "disk";
        transport = codes "iscsi";
        size = codes "1G";
      })
      (one_more mpath no_device)
    ∷ device
        (record {
          name = codes "sdb";
          hctl = codes "1:0:0:0";
          device_type = codes "disk";
          transport = codes "iscsi";
          size = codes "1G";
        })
        (one_more mpath no_device)
    ∷ []

get_multipath_device_iff_example : (get_multipath_device disks ≡ ok mpath) ↔ (
    All (HasOnlyChild (codes "mpatha")) disks
    × LastChild mpath disks
    × (codes "mpath" ≡ codes "mpath"))
get_multipath_device_iff_example = get_multipath_device_iff disks mpath
