-- ===== src/Tests/Memory.antt =====
-- A service that keeps its volumes by name in memory.
use reference_guides.Base.{
  GoString, codes, pos, ◌==◌, if◌then◌else◌, Option, none, some, List, [], ◌∷◌, map, errorf, ok,
  err,
}
use reference_guides.Models.{CreateK8sVolumeSpec, K8sVolumeRespSpec, K8sSnapshotRespSpec}
use reference_guides.DsmService.{DsmService}
use reference_guides.Tests.Fixture.{volume}

abbrev pub Volumes : Type 0
Volumes = List (GoString × K8sVolumeRespSpec)

abbrev pub by_name : Volumes → GoString → Option K8sVolumeRespSpec
by_name [] name = none
by_name ((n, v) ∷ rest) name = if n == name then some v else by_name rest name

abbrev pub volume_for : CreateK8sVolumeSpec → K8sVolumeRespSpec
volume_for spec = record volume { size_in_bytes = spec.size; protocol = spec.protocol }

abbrev pub snap_a : K8sSnapshotRespSpec
snap_a = record {
  dsm_ip = codes "10.0.0.7";
  name = codes "s1";
  uuid = codes "x";
  parent_name = codes "k8s-csi-a";
  parent_uuid = codes "u";
  status = codes "Healthy";
  size_in_bytes = pos 2147483648;
  create_time = pos 1700000000;
  time = [];
  root_path = codes "/volume2";
  protocol = codes "iscsi";
}

abbrev pub snap_b : K8sSnapshotRespSpec
snap_b = record snap_a { name = codes "s2"; uuid = codes "y" }

abbrev pub memory : DsmService
memory = record {
  State = Volumes;
  list_dsm_volumes = λ ip s. ([], s);
  create_volume =
      λ spec s. (ok (some (volume_for spec)), (spec.k8s_volume_name, volume_for spec) ∷ s);
  delete_volume = λ id s. (ok tt, s);
  list_volumes = λ s. (map (λ entry. entry.1) s, s);
  get_volume = λ id s. (none, s);
  expand_volume = λ id size s. (err errorf, s);
  create_snapshot = λ spec s. (err errorf, s);
  delete_snapshot = λ id s. (ok tt, s);
  list_all_snapshots = λ s. (snap_a ∷ snap_b ∷ [], s);
  list_snapshots = λ id s. ([], s);
  get_volume_by_name = λ name s. (by_name s name, s);
  get_snapshot_by_name = λ name s. (none, s);
}
