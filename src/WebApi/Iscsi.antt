-- ===== src/WebApi/Iscsi.antt =====
-- pkg/dsm/webapi/iscsi.go: the calls for LUNs, targets and LUN snapshots.
use reference_guides.Base.{ℤ, int64, GoString, codes, false, List, [], ◌∷◌, Exec, itoa, pure, ◌>>=◌}
use reference_guides.WebApi.Types.{
  LunCreateSpec, LunUpdateSpec, LunCloneSpec, TargetCreateSpec, SnapshotCreateSpec,
  SnapshotCloneSpec,
}
use reference_guides.WebApi.Network.{
  text, quote, int, bool, ids, dev_attribs, Content, lun_infos, lun, target_infos, target,
  lun_create_resp, lun_clone_resp, snapshot_create_resp, snapshot_clone_resp, trg_create_resp,
  snapshots, snapshot, nothing, Network,
}
use reference_guides.WebApi.Session.{Dsm, Web, entry_cgi, send_request}
use reference_guides.WebApi.Request.{request, iscsi_result}

module _ (N : Network) where
  -- LunList
  unfoldable pub lun_list : Dsm → Exec (Web N) (Content lun_infos)
  unfolding request
  lun_list dsm w = iscsi_result N (
      send_request N lun_infos
        (request "SYNO.Core.ISCSI.LUN" "list" "1" (
          (
            codes "types",
            text (
                codes
                  "[\"BLOCK\", \"FILE\", \"THIN\", \"ADV\", \"SINK\", \"CINDER\", \"CINDER_BLUN\", \"CINDER_BLUN_THICK\", \"BLUN\", \"BLUN_THICK\", \"BLUN_SINK\", \"BLUN_THICK_SINK\"]"),
          )
          ∷ (
            codes "additional",
            text (
                codes
                  "[\"allocated_size\",\"status\",\"flashcache_status\", \"is_action_locked\"]"),
          )
          ∷ []))
        entry_cgi dsm w)

  -- LunCreate
  unfoldable pub lun_create : LunCreateSpec → Dsm → Exec (Web N) (Content lun_create_resp)
  unfolding request
  lun_create spec dsm w = iscsi_result N (
      send_request N lun_create_resp
        (request "SYNO.Core.ISCSI.LUN" "create" "1" (
          (codes "name", quote spec.name)
          ∷ (codes "size", int spec.size)
          ∷ (codes "type", text spec.lun_type)
          ∷ (codes "location", text spec.location)
          ∷ (codes "description", text spec.description)
          ∷ (codes "dev_attribs", dev_attribs spec.dev_attribs)
          ∷ []))
        entry_cgi dsm w)

  -- LunUpdate
  unfoldable pub lun_update : LunUpdateSpec → Dsm → Exec (Web N) (Content nothing)
  unfolding request
  lun_update spec dsm w = iscsi_result N (
      send_request N nothing
        (request "SYNO.Core.ISCSI.LUN" "set" "1"
          ((codes "uuid", quote spec.uuid) ∷ (codes "new_size", int (int64 spec.new_size)) ∷ []))
        entry_cgi dsm w)

  -- LunGet
  unfoldable pub lun_get : GoString → Dsm → Exec (Web N) (Content lun)
  unfolding request
  lun_get uuid dsm w = iscsi_result N (
      send_request N lun
        (request "SYNO.Core.ISCSI.LUN" "get" "1" (
          (codes "uuid", quote uuid)
          ∷ (
            codes "additional",
            text (
                codes
                  "[\"allocated_size\",\"status\",\"flashcache_status\", \"is_action_locked\"]"),
          )
          ∷ []))
        entry_cgi dsm w)

  -- LunClone
  unfoldable pub lun_clone : LunCloneSpec → Dsm → Exec (Web N) (Content lun_clone_resp)
  unfolding request
  lun_clone spec dsm w = iscsi_result N (
      send_request N lun_clone_resp
        (request "SYNO.Core.ISCSI.LUN" "clone" "1" (
          (codes "src_lun_uuid", quote spec.src_lun_uuid)
          ∷ (codes "dst_lun_name", quote spec.name)
          ∷ (codes "dst_location", quote spec.location)
          ∷ []))
        entry_cgi dsm w)

  -- TargetList
  unfoldable pub target_list : Dsm → Exec (Web N) (Content target_infos)
  unfolding request
  target_list dsm w = iscsi_result N (
      send_request N target_infos
        (request "SYNO.Core.ISCSI.Target" "list" "1"
          ((codes "additional", text (codes "[\"mapped_lun\", \"connected_sessions\"]")) ∷ []))
        entry_cgi dsm w)

  -- TargetGet
  unfoldable pub target_get : GoString → Dsm → Exec (Web N) (Content target)
  unfolding request
  target_get target_id dsm w = iscsi_result N (
      send_request N target
        (request "SYNO.Core.ISCSI.Target" "get" "1" (
          (codes "target_id", quote target_id)
          ∷ (codes "additional", text (codes "[\"mapped_lun\", \"connected_sessions\"]"))
          ∷ []))
        entry_cgi dsm w)

  -- TargetSet
  unfoldable pub target_set : GoString → ℤ → Dsm → Exec (Web N) (Content nothing)
  unfolding request
  target_set target_id max_session dsm w = iscsi_result N (
      send_request N nothing
        (request "SYNO.Core.ISCSI.Target" "set" "1"
          ((codes "target_id", quote target_id) ∷ (codes "max_sessions", int max_session) ∷ []))
        entry_cgi dsm w)

  -- TargetCreate
  unfoldable pub target_create : TargetCreateSpec → Dsm → Exec (Web N) GoString
  unfolding request itoa
  target_create spec dsm = do
    target_id ← λ w. iscsi_result N (
        send_request N trg_create_resp
          (request "SYNO.Core.ISCSI.Target" "create" "1" (
            (codes "name", text spec.name)
            ∷ (codes "auth_type", text (codes "0"))
            ∷ (codes "iqn", text spec.iqn)
            ∷ []))
          entry_cgi dsm w)
    pure (itoa target_id)

  -- LunMapTarget
  unfoldable pub lun_map_target : List GoString → GoString → Dsm → Exec (Web N) (Content nothing)
  unfolding request
  lun_map_target target_ids lun_uuid dsm w = iscsi_result N (
      send_request N nothing
        (request "SYNO.Core.ISCSI.LUN" "map_target" "1"
          ((codes "uuid", quote lun_uuid) ∷ (codes "target_ids", ids target_ids) ∷ []))
        entry_cgi dsm w)

  -- LunDelete
  unfoldable pub lun_delete : GoString → Dsm → Exec (Web N) (Content nothing)
  unfolding request
  lun_delete lun_uuid dsm w = iscsi_result N (
      send_request N nothing
        (request "SYNO.Core.ISCSI.LUN" "delete" "1" ((codes "uuid", quote lun_uuid) ∷ [])) entry_cgi
        dsm w)

  -- TargetDelete
  unfoldable pub target_delete : GoString → Dsm → Exec (Web N) (Content nothing)
  unfolding request
  target_delete target_name dsm w = iscsi_result N (
      send_request N nothing
        (request "SYNO.Core.ISCSI.Target" "delete" "1"
          ((codes "target_id", quote target_name) ∷ []))
        entry_cgi dsm w)

  -- SnapshotCreate
  unfoldable pub snapshot_create :
      SnapshotCreateSpec → Dsm → Exec (Web N) (Content snapshot_create_resp)
  unfolding request
  snapshot_create spec dsm w = iscsi_result N (
      send_request N snapshot_create_resp
        (request "SYNO.Core.ISCSI.LUN" "take_snapshot" "1" (
          (codes "src_lun_uuid", quote spec.lun_uuid)
          ∷ (codes "snapshot_name", quote spec.name)
          ∷ (codes "description", quote spec.description)
          ∷ (codes "taken_by", quote spec.taken_by)
          ∷ (codes "is_locked", bool spec.is_locked)
          ∷ (codes "is_app_consistent", bool false)
          ∷ []))
        entry_cgi dsm w)

  -- SnapshotDelete
  unfoldable pub snapshot_delete : GoString → Dsm → Exec (Web N) (Content nothing)
  unfolding request
  snapshot_delete snapshot_uuid dsm w = iscsi_result N (
      send_request N nothing
        (request "SYNO.Core.ISCSI.LUN" "delete_snapshot" "1"
          ((codes "snapshot_uuid", quote snapshot_uuid) ∷ []))
        entry_cgi dsm w)

  -- SnapshotGet
  unfoldable pub snapshot_get : GoString → Dsm → Exec (Web N) (Content snapshot)
  unfolding request
  snapshot_get snapshot_uuid dsm w = iscsi_result N (
      send_request N snapshot
        (request "SYNO.Core.ISCSI.LUN" "get_snapshot" "1"
          ((codes "snapshot_uuid", quote snapshot_uuid) ∷ []))
        entry_cgi dsm w)

  -- SnapshotList
  unfoldable pub snapshot_list : GoString → Dsm → Exec (Web N) (Content snapshots)
  unfolding request
  snapshot_list lun_uuid dsm w = iscsi_result N (
      send_request N snapshots
        (request "SYNO.Core.ISCSI.LUN" "list_snapshot" "1"
          ((codes "src_lun_uuid", quote lun_uuid) ∷ []))
        entry_cgi dsm w)

  -- SnapshotClone
  unfoldable pub snapshot_clone :
      SnapshotCloneSpec → Dsm → Exec (Web N) (Content snapshot_clone_resp)
  unfolding request
  snapshot_clone spec dsm w = iscsi_result N (
      send_request N snapshot_clone_resp
        (request "SYNO.Core.ISCSI.LUN" "clone_snapshot" "1" (
          (codes "src_lun_uuid", quote spec.src_lun_uuid)
          ∷ (codes "snapshot_uuid", quote spec.src_snapshot_uuid)
          ∷ (codes "cloned_lun_name", quote spec.name)
          ∷ []))
        entry_cgi dsm w)
