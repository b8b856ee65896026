-- ===== src/WebApi/Share.antt =====
-- pkg/dsm/webapi/share.go: the calls for shares, their snapshots and permissions.
use reference_guides.Base.{
  ltb, ℤ, GoString, codes, ◌==◌, some, [], ◌∷◌, ◌++◌, Exec, err, errorf, fail, pure, ◌>>=◌,
  if◌then◌else◌,
}
use reference_guides.WebApi.Types.{
  ShareInfo, ShareCreateSpec, ShareCloneSpec, ShareUpdateInfo, ShareSnapshotCreateSpec,
  SharePermissionSetSpec,
}
use reference_guides.WebApi.Network.{
  Params, text, quote, quote_list, share, share_update, snap_info, permissions, Content, share_info,
  share_infos, share_create_resp, snap_time, share_snapshots, share_permissions, objmap, nothing,
  Network,
}
use reference_guides.WebApi.Session.{Dsm, Web, entry_cgi, send_request}
use reference_guides.WebApi.Request.{request, share_result, share_mapped}

module _ (N : Network) where
  -- ShareGet
  unfoldable pub share_get : GoString → Dsm → Exec (Web N) (Content share_info)
  unfolding request
  share_get share_name dsm w = share_mapped N (
      send_request N share_info
        (request "SYNO.Core.Share" "get" "1" (
          (
            codes "additional",
            text (
                codes
                  "[\"encryption\", \"enable_share_cow\", \"recyclebin\", \"support_snapshot\", \"share_quota\"]"),
          )
          ∷ (codes "name", quote share_name)
          ∷ []))
        entry_cgi dsm w)

  -- ShareList
  unfoldable pub share_list : Dsm → Exec (Web N) (Content share_infos)
  unfolding request
  share_list dsm w = share_result N (
      send_request N share_infos
        (request "SYNO.Core.Share" "list" "1" (
          (
            codes "additional",
            text (
                codes
                  "[\"encryption\", \"enable_share_cow\", \"recyclebin\", \"support_snapshot\", \"share_quota\"]"),
          )
          ∷ []))
        entry_cgi dsm w)

  -- ShareCreate
  unfoldable pub share_create : ShareCreateSpec → Dsm → Exec (Web N) (Content nothing)
  unfolding request
  share_create spec dsm w = share_mapped N (
      send_request N nothing
        (request "SYNO.Core.Share" "create" "1"
          ((codes "name", quote spec.name) ∷ (codes "shareinfo", share spec.share_info) ∷ []))
        entry_cgi dsm w)

  -- ShareClone: the parameter "snapshot" is sent only if it is not empty.
  clone_params : ShareCloneSpec → Params
  unfolding request
  clone_params spec = request "SYNO.Core.Share" "clone" "1" (
      (codes "name", quote spec.name)
      ∷ ((if spec.snapshot == [] then [] else (codes "snapshot", quote spec.snapshot) ∷ [])
          ++ ((codes "shareinfo", share spec.share_info) ∷ [])))

  unfoldable pub share_clone : ShareCloneSpec → Dsm → Exec (Web N) (Content share_create_resp)
  unfolding clone_params
  share_clone spec dsm w =
      if spec.share_info.name_org == []
      then (err errorf, w)
      else share_result N (send_request N share_create_resp (clone_params spec) entry_cgi dsm w)

  -- ShareDelete
  unfoldable pub share_delete : GoString → Dsm → Exec (Web N) (Content nothing)
  unfolding request
  share_delete share_name dsm w = share_mapped N (
      send_request N nothing
        (request "SYNO.Core.Share" "delete" "1" ((codes "name", quote_list share_name) ∷ []))
        entry_cgi dsm w)

  -- ShareSet
  unfoldable pub share_set : GoString → ShareUpdateInfo → Dsm → Exec (Web N) (Content nothing)
  unfolding request
  share_set share_name update_info dsm w = share_mapped N (
      send_request N nothing
        (request "SYNO.Core.Share" "set" "1"
          ((codes "name", quote share_name) ∷ (codes "shareinfo", share_update update_info) ∷ []))
        entry_cgi dsm w)

  -- SetShareQuota
  unfoldable pub set_share_quota : ShareInfo → ℤ → Dsm → Exec (Web N) (Content nothing)
  set_share_quota info new_size_in_mb = share_set info.name (record {
    name = info.name;
    vol_path = info.vol_path;
    quota_for_create = some new_size_in_mb;
  })

  -- ShareSnapshotCreate
  unfoldable pub share_snapshot_create :
      ShareSnapshotCreateSpec → Dsm → Exec (Web N) (Content snap_time)
  unfolding request
  share_snapshot_create spec dsm w = share_result N (
      send_request N snap_time
        (request "SYNO.Core.Share.Snapshot" "create" "1" (
          (codes "name", quote spec.share_name)
          ∷ (codes "snapinfo", snap_info spec.desc spec.is_locked)
          ∷ []))
        entry_cgi dsm w)

  -- ShareSnapshotList
  unfoldable pub share_snapshot_list : GoString → Dsm → Exec (Web N) (Content share_snapshots)
  unfolding request
  share_snapshot_list name dsm w = share_result N (
      send_request N share_snapshots
        (request "SYNO.Core.Share.Snapshot" "list" "2" (
          (codes "name", quote name)
          ∷ (
            codes "additional",
            text (codes "[\"desc\", \"lock\", \"schedule_snapshot\", \"ruuid\", \"snap_size\"]"),
          )
          ∷ []))
        entry_cgi dsm w)

  -- SharePermissionSet
  unfoldable pub share_permission_set :
      SharePermissionSetSpec → Dsm → Exec (Web N) (Content nothing)
  unfolding request
  share_permission_set spec dsm w = share_mapped N (
      send_request N nothing
        (request "SYNO.Core.Share.Permission" "set" "1" (
          (codes "name", quote spec.name)
          ∷ (codes "user_group_type", quote spec.user_group_type)
          ∷ (codes "permissions", permissions spec.permissions)
          ∷ []))
        entry_cgi dsm w)

  -- SharePermissionList
  unfoldable pub share_permission_list :
      GoString → GoString → Dsm → Exec (Web N) (Content share_permissions)
  unfolding request
  share_permission_list share_name user_group_type dsm w = share_result N (
      send_request N share_permissions
        (request "SYNO.Core.Share.Permission" "list" "1" (
          (codes "name", quote share_name) ∷ (codes "user_group_type", quote user_group_type) ∷ []))
        entry_cgi dsm w)

  -- ShareSnapshotDelete: an answer that lists items is an error.
  unfoldable pub share_snapshot_delete : GoString → GoString → Dsm → Exec (Web N) (Content nothing)
  unfolding request
  share_snapshot_delete snapshot_time share_name dsm = do
    failures ← λ w. share_result N (
        send_request N objmap
          (request "SYNO.Core.Share.Snapshot" "delete" "1"
            ((codes "name", quote share_name) ∷ (codes "snapshots", quote_list snapshot_time) ∷ []))
          entry_cgi dsm w)
    if ltb 0 failures then fail errorf else pure tt
