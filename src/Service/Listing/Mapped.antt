-- ===== src/Service/Listing/Mapped.antt =====
-- pkg/dsm/service/dsm.go: a volume of the protocol iscsi is listed with a target that has a LUN.
use reference_guides.Base.{
  GoString, ◌==◌, has_prefix, Bool, true, false, find-All, keep, All, All-map, All-append, All-keep,
  some, List, [], ◌∷◌, ◌++◌, Result, ◌≡◌, refl, ◌≢◌, inl, inr, Bool-cases,
}
use reference_guides.Utils.{protocol_smb, protocol_iscsi}
use reference_guides.Models.{K8sVolumeRespSpec, lun_prefix, share_prefix}
use reference_guides.WebApi.Types.{LunInfo, TargetInfo, MappedLun, ShareInfo}
use reference_guides.WebApi.Session.{Dsm}
use reference_guides.Backend.{Backend}
use reference_guides.Service.Registry.{Dsms, is_other}
use reference_guides.Service.Convert.{dsm_lun_to_k8s_volume, dsm_share_to_k8s_volume}
use reference_guides.Service.Listing.{
  listed, found_lun, mapped_volume, shared_volumes, mapped_volumes, target_volumes,
  dsm_iscsi_volumes, list_iscsi_volumes, share_volumes, yes_uc, dsm_smb_volumes, list_smb_volumes,
  list_volumes, get_volume,
}

abbrev pub HasLun : K8sVolumeRespSpec → Type 0
HasLun v = v.protocol ≡ protocol_iscsi → v.target.mapped_luns ≢ []

mapped_volume-HasLun :
    (dsm : Dsm) (target : TargetInfo) (l : Result LunInfo)
    → target.mapped_luns ≢ []
    → All HasLun (mapped_volume dsm target l)
unfolding mapped_volume dsm_lun_to_k8s_volume
mapped_volume-HasLun dsm target l ne =
    elim (Bool-cases (has_prefix (found_lun l).name lun_prefix)) [
      | inl t ↦ rw t ((λ e. ne), tt)
      | inr f ↦ rw f tt
    ]

smb≢iscsi : protocol_smb ≢ protocol_iscsi
smb≢iscsi e = cc

shared_volumes-HasLun :
    (dsm : Dsm) (shares : List ShareInfo) → All HasLun (shared_volumes dsm shares)
unfolding shared_volumes dsm_share_to_k8s_volume
shared_volumes-HasLun dsm shares =
    All-map HasLun (λ share. has_prefix share.name share_prefix ≡ true)
      (dsm_share_to_k8s_volume dsm.ip) (keep (λ share. has_prefix share.name share_prefix) shares)
      (λ share t e. absurd (smb≢iscsi e))
      (All-keep (λ share. has_prefix share.name share_prefix ≡ true)
        (λ share. has_prefix share.name share_prefix) shares (λ share t. t))

module _ (B : Backend) where
  open B use {State, lun_get, target_list, share_list, is_uc}

  mapped_volumes-HasLun :
      (dsm : Dsm) (target : TargetInfo)
      → target.mapped_luns ≢ []
      → (mappings : List MappedLun) (s : State)
      → All HasLun (mapped_volumes B dsm target mappings s).0
  unfolding mapped_volumes
  mapped_volumes-HasLun dsm target ne [] s = tt
  mapped_volumes-HasLun dsm target ne (mapping ∷ mappings) s =
      let (l, s') = lun_get mapping.lun_uuid dsm s in
      All-append HasLun (mapped_volume dsm target l) (mapped_volumes B dsm target mappings s').0
        (mapped_volume-HasLun dsm target l ne) (mapped_volumes-HasLun dsm target ne mappings s')

  -- A target without LUNs gives no volumes.
  target-HasLun :
      (dsm : Dsm) (target : TargetInfo) (luns : List MappedLun) (s : State)
      → target.mapped_luns ≡ luns
      → All HasLun (mapped_volumes B dsm target luns s).0
  unfolding mapped_volumes
  target-HasLun dsm target [] s e = tt
  target-HasLun dsm target (lun ∷ luns) s e =
      mapped_volumes-HasLun dsm target (λ none_left. cc) (lun ∷ luns) s

  target_volumes-HasLun :
      (dsm : Dsm) (targets : List TargetInfo) (s : State)
      → All HasLun (target_volumes B dsm targets s).0
  unfolding target_volumes
  target_volumes-HasLun dsm [] s = tt
  target_volumes-HasLun dsm (target ∷ targets) s =
      let (here, s') = mapped_volumes B dsm target target.mapped_luns s in
      All-append HasLun here (target_volumes B dsm targets s').0
        (target-HasLun dsm target target.mapped_luns s refl) (target_volumes-HasLun dsm targets s')

  list_iscsi_volumes-HasLun :
      (dsms : Dsms) (ip : GoString) (s : State) → All HasLun (list_iscsi_volumes B dsms ip s).0
  unfolding list_iscsi_volumes dsm_iscsi_volumes
  list_iscsi_volumes-HasLun [] ip s = tt
  list_iscsi_volumes-HasLun (dsm ∷ dsms) ip s = elim (Bool-cases (is_other ip dsm)) [
    | inl t ↦ rw t (list_iscsi_volumes-HasLun dsms ip s)
    | inr f ↦ rw f (
        let (here, s') = dsm_iscsi_volumes B dsm s in
        All-append HasLun here (list_iscsi_volumes B dsms ip s').0
          (target_volumes-HasLun dsm (listed (target_list dsm s).0) (target_list dsm s).1)
          (list_iscsi_volumes-HasLun dsms ip s'))
  ]

  share_volumes-HasLun :
      (dsm : Dsm) (uc : Bool) (s : State) → All HasLun (share_volumes B dsm uc s).0
  unfolding share_volumes
  share_volumes-HasLun dsm true s = tt
  share_volumes-HasLun dsm false s = shared_volumes-HasLun dsm (listed (share_list dsm s).0)

  list_smb_volumes-HasLun :
      (dsms : Dsms) (ip : GoString) (s : State) → All HasLun (list_smb_volumes B dsms ip s).0
  unfolding list_smb_volumes dsm_smb_volumes
  list_smb_volumes-HasLun [] ip s = tt
  list_smb_volumes-HasLun (dsm ∷ dsms) ip s = elim (Bool-cases (is_other ip dsm)) [
    | inl t ↦ rw t (list_smb_volumes-HasLun dsms ip s)
    | inr f ↦ rw f (
        let (here, s') = dsm_smb_volumes B dsm s in
        All-append HasLun here (list_smb_volumes B dsms ip s').0
          (share_volumes-HasLun dsm (yes_uc B (is_uc dsm s).0) (is_uc dsm s).1)
          (list_smb_volumes-HasLun dsms ip s'))
  ]

  -- An iSCSI volume that GetVolume finds has a target with a LUN.
  pub get_volume-HasLun :
      (dsms : Dsms) (volume_id : GoString) (s : State) (v : K8sVolumeRespSpec)
      → (get_volume B dsms volume_id s).0 ≡ some v
      → HasLun v
  unfolding get_volume list_volumes
  get_volume-HasLun dsms volume_id s v e =
      let (luns, s') = list_iscsi_volumes B dsms [] s in
      (find-All HasLun (λ w. w.volume_id == volume_id) (luns ++ (list_smb_volumes B dsms [] s').0)
        (All-append HasLun luns (list_smb_volumes B dsms [] s').0
          (list_iscsi_volumes-HasLun dsms [] s) (list_smb_volumes-HasLun dsms [] s'))
        e).0
