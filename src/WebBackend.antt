-- ===== src/WebBackend.antt =====
-- pkg/dsm/webapi as what the service calls: the requests to a DSM, over any network.
use reference_guides.Base.{ℕ, ℤ, GoString, Option}
use reference_guides.Backend.{Backend}
use reference_guides.WebApi.Network.{Network}
use reference_guides.WebApi.Session.{Web, login, logout}
use reference_guides.WebApi.Iscsi
use reference_guides.WebApi.Share
use reference_guides.WebApi.Storage
use reference_guides.WebApi.Controllers

abbrev pub web_backend : Network → (GoString → Option ℤ) → ℕ → Backend
web_backend N parse_time retries = record {
  State = Web N;
  login = login N;
  logout = logout N;
  volume_list = Storage.volume_list N;
  volume_get = Storage.volume_get N;
  dsm_info_get = Storage.dsm_info_get N;
  is_uc = Storage.is_uc N;
  get_another_controller = Controllers.get_another_controller N;
  lun_create = Iscsi.lun_create N;
  lun_update = Iscsi.lun_update N;
  lun_get = Iscsi.lun_get N;
  lun_clone = Iscsi.lun_clone N;
  lun_map_target = Iscsi.lun_map_target N;
  lun_delete = Iscsi.lun_delete N;
  target_list = Iscsi.target_list N;
  target_get = Iscsi.target_get N;
  target_set = Iscsi.target_set N;
  target_create = Iscsi.target_create N;
  target_delete = Iscsi.target_delete N;
  snapshot_create = Iscsi.snapshot_create N;
  snapshot_delete = Iscsi.snapshot_delete N;
  snapshot_get = Iscsi.snapshot_get N;
  snapshot_list = Iscsi.snapshot_list N;
  snapshot_clone = Iscsi.snapshot_clone N;
  share_get = Share.share_get N;
  share_list = Share.share_list N;
  share_create = Share.share_create N;
  share_clone = Share.share_clone N;
  share_delete = Share.share_delete N;
  set_share_quota = Share.set_share_quota N;
  share_snapshot_create = Share.share_snapshot_create N;
  share_snapshot_list = Share.share_snapshot_list N;
  share_snapshot_delete = Share.share_snapshot_delete N;
  share_permission_set = Share.share_permission_set N;
  parse_time = parse_time;
  retries = retries;
}
