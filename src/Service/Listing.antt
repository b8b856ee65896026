-- ===== src/Service/Listing.antt =====
-- pkg/dsm/service/dsm.go and share_volume.go: listing volumes, and finding one by its id or name.
pub mod Ownership
pub mod Mapped
use reference_guides.Base.{
  GoString, ◌==◌, has_prefix, Bool, ◌||◌, find, keep, map, Option, none, some, List, [], ◌∷◌, ◌++◌,
  Result, ok, err, Exec, attempt, pure, ◌>>=◌, if◌then◌else◌,
}
use reference_guides.Models.{
  K8sVolumeRespSpec, lun_prefix, share_prefix, gen_lun_name, gen_share_name,
}
use reference_guides.WebApi.Types.{LunInfo, TargetInfo, MappedLun, VolInfo, ShareInfo}
use reference_guides.WebApi.Zero
use reference_guides.WebApi.Session.{Dsm}
use reference_guides.Backend.{Backend}
use reference_guides.Service.Registry.{Dsms, is_other}
use reference_guides.Service.Convert.{dsm_lun_to_k8s_volume, dsm_share_to_k8s_volume}

-- The items of a list, and none where the call failed.
abbrev pub listed : {A : Type 0} → Result (List A) → List A
listed (ok xs) = xs
listed (err e) = []

-- A LUN, and LunInfo{} where the call failed.
abbrev pub found_lun : Result LunInfo → LunInfo
found_lun (ok lun) = lun
found_lun (err e) = Zero.lun_info

-- The volume of a mapping, if the LUN has the driver's prefix.
unfoldable pub mapped_volume : Dsm → TargetInfo → Result LunInfo → List K8sVolumeRespSpec
mapped_volume dsm target r =
    if has_prefix (found_lun r).name lun_prefix
    then dsm_lun_to_k8s_volume dsm.ip (found_lun r) target ∷ []
    else []

-- The shares that have the driver's prefix.
unfoldable pub shared_volumes : Dsm → List ShareInfo → List K8sVolumeRespSpec
shared_volumes dsm shares =
    map (dsm_share_to_k8s_volume dsm.ip) (keep (λ share. has_prefix share.name share_prefix) shares)

module _ (B : Backend) where
  open B use {State, lun_get, target_list, share_list, is_uc, volume_list}

  -- Actions that only read: their failures are logged, and they always have a value.
  unfoldable pub mapped_volumes :
      Dsm → TargetInfo → List MappedLun → State → List K8sVolumeRespSpec × State
  mapped_volumes dsm target [] s = ([], s)
  mapped_volumes dsm target (mapping ∷ mappings) s =
      let (r, s') = lun_get mapping.lun_uuid dsm s in
      let (more, s'') = mapped_volumes dsm target mappings s' in
      (mapped_volume dsm target r ++ more, s'')

  unfoldable pub target_volumes : Dsm → List TargetInfo → State → List K8sVolumeRespSpec × State
  target_volumes dsm [] s = ([], s)
  target_volumes dsm (target ∷ targets) s =
      let (here, s') = mapped_volumes dsm target target.mapped_luns s in
      let (more, s'') = target_volumes dsm targets s' in (here ++ more, s'')

  unfoldable pub dsm_iscsi_volumes : Dsm → State → List K8sVolumeRespSpec × State
  dsm_iscsi_volumes dsm s = let (r, s') = target_list dsm s in target_volumes dsm (listed r) s'

  -- listISCSIVolumes
  unfoldable pub list_iscsi_volumes : Dsms → GoString → State → List K8sVolumeRespSpec × State
  list_iscsi_volumes [] dsm_ip s = ([], s)
  list_iscsi_volumes (dsm ∷ dsms) dsm_ip s =
      let (here, s') = if is_other dsm_ip dsm then ([], s) else dsm_iscsi_volumes dsm s in
      let (more, s'') = list_iscsi_volumes dsms dsm_ip s' in (here ++ more, s'')

  unfoldable pub share_volumes : Dsm → Bool → State → List K8sVolumeRespSpec × State
  share_volumes dsm uc s =
      if uc then ([], s) else let (r, s') = share_list dsm s in (shared_volumes dsm (listed r), s')

  abbrev pub yes_uc : Result Bool → Bool
  yes_uc (ok uc) = uc
  yes_uc (err e) = Bool.false

  unfoldable pub dsm_smb_volumes : Dsm → State → List K8sVolumeRespSpec × State
  dsm_smb_volumes dsm s = let (r, s') = is_uc dsm s in share_volumes dsm (yes_uc r) s'

  -- listSMBVolumes
  unfoldable pub list_smb_volumes : Dsms → GoString → State → List K8sVolumeRespSpec × State
  list_smb_volumes [] dsm_ip s = ([], s)
  list_smb_volumes (dsm ∷ dsms) dsm_ip s =
      let (here, s') = if is_other dsm_ip dsm then ([], s) else dsm_smb_volumes dsm s in
      let (more, s'') = list_smb_volumes dsms dsm_ip s' in (here ++ more, s'')

  -- ListVolumes
  unfoldable pub list_volumes : Dsms → State → List K8sVolumeRespSpec × State
  list_volumes dsms s =
      let (luns, s') = list_iscsi_volumes dsms [] s in
      let (shares, s'') = list_smb_volumes dsms [] s' in (luns ++ shares, s'')

  -- GetVolume
  unfoldable pub get_volume : Dsms → GoString → State → Option K8sVolumeRespSpec × State
  get_volume dsms vol_id s =
      let (volumes, s') = list_volumes dsms s in (find (λ v. v.volume_id == vol_id) volumes, s')

  -- GetVolumeByName
  unfoldable pub get_volume_by_name : Dsms → GoString → State → Option K8sVolumeRespSpec × State
  get_volume_by_name dsms vol_name s =
      let (volumes, s') = list_volumes dsms s in
      (find (λ v. v.name == gen_lun_name vol_name || v.name == gen_share_name vol_name) volumes, s')

  unfoldable pub dsm_storage : Dsm → State → List VolInfo × State
  dsm_storage dsm s = let (r, s') = volume_list dsm s in (listed r, s')

  -- ListDsmVolumes; the error that it returns is always nil.
  unfoldable pub list_dsm_volumes : Dsms → GoString → State → List VolInfo × State
  list_dsm_volumes [] ip s = ([], s)
  list_dsm_volumes (dsm ∷ dsms) ip s =
      let (here, s') = if is_other ip dsm then ([], s) else dsm_storage dsm s in
      let (more, s'') = list_dsm_volumes dsms ip s' in (here ++ more, s'')
