-- ===== src/Tests/Fixture.antt =====
-- A DSM as a backend: its state says whether its one LUN is there.
use reference_guides.Base.{
  pos, codes, Bool, true, false, none, List, [], ◌∷◌, no_such_lun_error, errorf, Result, ok, err,
  if◌then◌else◌,
}
use reference_guides.WebApi.Types.{LunInfo, TargetInfo, VolInfo}
use reference_guides.WebApi.Zero
use reference_guides.WebApi.Session.{Dsm}
use reference_guides.Backend.{Backend}
use reference_guides.Models.{CreateK8sVolumeSpec, K8sVolumeRespSpec}

abbrev pub nas : Dsm
nas = record {
  ip = codes "10.0.0.7";
  port = pos 5001;
  username = codes "admin";
  password = codes "secret";
  https = true;
}

abbrev pub lun : LunInfo
lun = record Zero.lun_info {
  name = codes "k8s-csi-a";
  uuid = codes "u";
  location = codes "/volume2";
  size = 2147483648;
}

abbrev pub target : TargetInfo
target = record Zero.target_info {
  name = codes "k8s-csi-a";
  iqn = codes "iqn";
  mapped_luns = (record { lun_uuid = codes "u"; mapping_index = pos 0 }) ∷ [];
  target_id = pos 3;
}

abbrev pub crashed : VolInfo
crashed = record Zero.vol_info {
  path = codes "/volume1";
  status = codes "crashed";
  fs_type = codes "btrfs";
  free = codes "9000000000";
}

abbrev pub healthy : VolInfo
healthy = record Zero.vol_info {
  path = codes "/volume2";
  status = codes "normal";
  fs_type = codes "btrfs";
  free = codes "8000000000";
}

abbrev pub lun_when : Bool → Result LunInfo
lun_when there = if there then ok lun else err no_such_lun_error

abbrev pub targets_when : Bool → List TargetInfo
targets_when there = if there then target ∷ [] else []

abbrev pub backend : Backend
backend = record {
  State = Bool;
  login = λ dsm s. (none, s);
  logout = λ dsm s. (none, s);
  volume_list = λ dsm s. (ok (crashed ∷ healthy ∷ []), s);
  volume_get = λ path dsm s. (ok healthy, s);
  dsm_info_get = λ dsm s. (ok (record { hostname = codes "nas" }), s);
  is_uc = λ dsm s. (ok false, s);
  get_another_controller = λ dsm s. (err errorf, s);
  lun_create = λ spec dsm s. (ok (codes "u"), true);
  lun_update = λ spec dsm s. (ok tt, s);
  lun_get = λ uuid dsm s. (lun_when s, s);
  lun_clone = λ spec dsm s. (err errorf, s);
  lun_map_target = λ ids uuid dsm s. (ok tt, s);
  lun_delete = λ uuid dsm s. (ok tt, false);
  target_list = λ dsm s. (ok (targets_when s), s);
  target_get = λ id dsm s. (ok target, s);
  target_set = λ id n dsm s. (ok tt, s);
  target_create = λ spec dsm s. (ok (codes "3"), s);
  target_delete = λ id dsm s. (ok tt, s);
  snapshot_create = λ spec dsm s. (err errorf, s);
  snapshot_delete = λ uuid dsm s. (err errorf, s);
  snapshot_get = λ uuid dsm s. (err errorf, s);
  snapshot_list = λ uuid dsm s. (ok [], s);
  snapshot_clone = λ spec dsm s. (err errorf, s);
  share_get = λ name dsm s. (err errorf, s);
  share_list = λ dsm s. (ok [], s);
  share_create = λ spec dsm s. (err errorf, s);
  share_clone = λ spec dsm s. (err errorf, s);
  share_delete = λ name dsm s. (err errorf, s);
  set_share_quota = λ share size dsm s. (err errorf, s);
  share_snapshot_create = λ spec dsm s. (err errorf, s);
  share_snapshot_list = λ name dsm s. (ok [], s);
  share_snapshot_delete = λ time name dsm s. (err errorf, s);
  share_permission_set = λ spec dsm s. (ok tt, s);
  parse_time = λ text. none;
  retries = 2;
}

-- The spec for a new LUN of 2 GB.
abbrev pub spec : CreateK8sVolumeSpec
spec = record {
  dsm_ip = [];
  k8s_volume_name = codes "a";
  lun_name = codes "k8s-csi-a";
  lun_description = [];
  share_name = codes "k8s-csi-a";
  location = [];
  size = pos 2147483648;
  lun_type = [];
  thin_provisioning = true;
  target_name = codes "k8s-csi-a";
  multiple_session = false;
  source_snapshot_id = [];
  source_volume_id = [];
  protocol = codes "iscsi";
}

abbrev pub volume : K8sVolumeRespSpec
volume = record {
  dsm_ip = codes "10.0.0.7";
  volume_id = codes "u";
  size_in_bytes = pos 2147483648;
  location = codes "/volume2";
  name = codes "k8s-csi-a";
  source = [];
  lun = lun;
  target = target;
  share = Zero.share_info;
  protocol = codes "iscsi";
}
