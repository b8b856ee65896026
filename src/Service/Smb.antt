-- ===== src/Service/Smb.antt =====
-- pkg/dsm/service/share_volume.go: making a share, from nothing, from a snapshot or from a share.
use reference_guides.Base.{
  ℤ, pos, eqb_ℤ, GoString, codes, true, false, ◌&&◌, not, some, [], ◌++◌, status, internal,
  invalid_argument, out_of_range, Exec, pure, fail, attempt, or_fail, tolerate_existing, ◌>>=◌,
  ◌>>◌, if◌then◌else◌,
}
use reference_guides.Utils.{bytes_to_mb_ceil}
use reference_guides.WebApi.Types.{ShareInfo}
use reference_guides.WebApi.Zero
use reference_guides.WebApi.Session.{Dsm}
use reference_guides.Backend.{Backend}
use reference_guides.Models.{CreateK8sVolumeSpec, K8sVolumeRespSpec, K8sSnapshotRespSpec}
use reference_guides.Service.Convert.{dsm_share_to_k8s_volume}

module _ (B : Backend) where
  open B use {State, volume_get, share_get, share_create, share_clone, set_share_quota}

  -- `if shareInfo.QuotaValueInMB == 0`: the quota is set by hand and noted in the record.
  unfoldable pub ensure_quota : ShareInfo → ℤ → Dsm → Exec State ShareInfo
  ensure_quota share new_size_in_mb dsm =
      if eqb_ℤ share.quota_value_in_mb (pos 0)
      then (do
        or_fail (status internal) (set_share_quota share new_size_in_mb dsm)
        pure (record share { quota_value_in_mb = new_size_in_mb }))
      else pure share

  -- The ShareInfo of a clone: the description tells where it comes from.
  unfoldable pub clone_info : GoString → GoString → GoString → ShareInfo → GoString → ShareInfo
  clone_info share_name vol_path origin src name_org = record Zero.share_info {
    name = share_name;
    vol_path = vol_path;
    desc = codes "Cloned from [" ++ (origin ++ codes "] by csi driver");
    enable_recycle_bin = src.enable_recycle_bin;
    recycle_bin_admin_only = src.recycle_bin_admin_only;
    name_org = name_org;
  }

  -- createSMBVolumeBySnapshot
  unfoldable pub create_smb_volume_by_snapshot :
      Dsm → CreateK8sVolumeSpec → K8sSnapshotRespSpec → Exec State K8sVolumeRespSpec
  create_smb_volume_by_snapshot dsm spec src = do
    src_share ← or_fail (status internal) (share_get src.parent_name dsm)
    cloned ← attempt (
        share_clone
          (record {
            name = spec.share_name;
            snapshot = src.time;
            share_info =
                clone_info spec.share_name src.root_path src.time src_share src.parent_name;
          })
          dsm)
    tolerate_existing internal cloned
    share ← or_fail (status internal) (share_get spec.share_name dsm)
    share' ← ensure_quota share (bytes_to_mb_ceil spec.size) dsm
    if eqb_ℤ (bytes_to_mb_ceil spec.size) share'.quota_value_in_mb
        then pure (dsm_share_to_k8s_volume dsm.ip share')
        else fail (status out_of_range)

  -- createSMBVolumeByVolume
  unfoldable pub create_smb_volume_by_volume :
      Dsm → CreateK8sVolumeSpec → ShareInfo → Exec State K8sVolumeRespSpec
  create_smb_volume_by_volume dsm spec src =
      if not (eqb_ℤ spec.size (pos 0))
        && not (eqb_ℤ (bytes_to_mb_ceil spec.size) src.quota_value_in_mb)
      then fail (status out_of_range)
      else (do
        cloned ← attempt (
            share_clone
              (record {
                name = spec.share_name;
                snapshot = [];
                share_info = clone_info spec.share_name src.vol_path src.name src src.name;
              })
              dsm)
        tolerate_existing internal cloned
        share ← or_fail (status internal) (share_get spec.share_name dsm)
        share' ← ensure_quota share (bytes_to_mb_ceil spec.size) dsm
        pure (dsm_share_to_k8s_volume dsm.ip share'))

  -- Steps 2 and 3 of createSMBVolumeByDsm.
  unfoldable pub create_share_at : Dsm → CreateK8sVolumeSpec → Exec State K8sVolumeRespSpec
  create_share_at dsm spec = do
    vol ← or_fail (status invalid_argument) (volume_get spec.location dsm)
    created ← attempt (
        share_create
          (record {
            name = spec.share_name;
            share_info = record Zero.share_info {
              name = spec.share_name;
              vol_path = spec.location;
              desc = codes "Created by Synology K8s CSI";
              enable_share_cow = false;
              enable_recycle_bin = true;
              recycle_bin_admin_only = true;
              encryption = pos 0;
              quota_for_create = some (bytes_to_mb_ceil spec.size);
            };
          })
          dsm)
    tolerate_existing internal created
    share ← or_fail (status internal) (share_get spec.share_name dsm)
    pure (dsm_share_to_k8s_volume dsm.ip share)
