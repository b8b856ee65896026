-- ===== src/WebApi/Storage.antt =====
-- pkg/dsm/webapi/storage.go, systeminfo.go and IsUC of utils.go: storage volumes and the system.
use reference_guides.Base.{
  GoString, codes, contains, Bool, false, [], ◌∷◌, Exec, Result, ok, err, attempt, pure, ◌>>=◌,
}
use reference_guides.WebApi.Types.{DsmSysInfo}
use reference_guides.WebApi.Network.{
  text, quote, Content, vol_infos, vol, dsm_info, dsm_sys_info, Network,
}
use reference_guides.WebApi.Session.{Dsm, Web, entry_cgi, send_request}
use reference_guides.WebApi.Request.{request, plain_result}

module _ (N : Network) where
  -- VolumeList
  unfoldable pub volume_list : Dsm → Exec (Web N) (Content vol_infos)
  unfolding request
  volume_list dsm w = plain_result N (
      send_request N vol_infos
        (request "SYNO.Core.Storage.Volume" "list" "1" (
          (codes "offset", text (codes "0"))
          ∷ (codes "limit", text (codes "-1"))
          ∷ (codes "location", text (codes "all"))
          ∷ []))
        entry_cgi dsm w)

  -- VolumeGet
  unfoldable pub volume_get : GoString → Dsm → Exec (Web N) (Content vol)
  unfolding request
  volume_get name dsm w = plain_result N (
      send_request N vol
        (request "SYNO.Core.Storage.Volume" "get" "1" ((codes "volume_path", quote name) ∷ []))
        entry_cgi dsm w)

  -- DsmInfoGet
  unfoldable pub dsm_info_get : Dsm → Exec (Web N) (Content dsm_info)
  unfolding request
  dsm_info_get dsm w = plain_result N (
      send_request N dsm_info
        (request "SYNO.Core.System" "info" "1" ((codes "type", text (codes "network")) ∷ []))
        entry_cgi dsm w)

  -- DsmSystemInfoGet
  unfoldable pub dsm_system_info_get : Dsm → Exec (Web N) (Content dsm_sys_info)
  unfolding request
  dsm_system_info_get dsm w =
      plain_result N
        (send_request N dsm_sys_info (request "SYNO.Core.System" "info" "1" ([])) entry_cgi dsm w)

  says_uc : Result DsmSysInfo → Bool
  says_uc (ok info) = contains info.firmware_ver (codes "DSM UC")
  says_uc (err e) = false

  -- IsUC: a DSM that does not answer counts as none.
  unfoldable pub is_uc : Dsm → Exec (Web N) Bool
  unfolding says_uc contains
  is_uc dsm = do info ← attempt (dsm_system_info_get dsm); pure (says_uc info)
