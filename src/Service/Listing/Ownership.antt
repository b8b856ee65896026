-- ===== src/Service/Listing/Ownership.antt =====
-- pkg/dsm/service/dsm.go and share_volume.go: what every volume that is listed satisfies.
use reference_guides.Base.{
  GoString, ◌==◌, eq_refl, eq_iff, has_prefix, Bool, true, false, find-All, keep, All, All-imp,
  All-keep, All-map, All-append, some, List, [], ◌∷◌, Result, ◌≡◌, refl, ◌⊎◌, inl, inr, Bool-cases,
}
use reference_guides.Utils.{protocol_smb, protocol_iscsi}
use reference_guides.Models.{K8sVolumeRespSpec, lun_prefix, share_prefix}
use reference_guides.WebApi.Types.{LunInfo, TargetInfo, MappedLun, ShareInfo}
use reference_guides.WebApi.Session.{Dsm}
use reference_guides.Backend.{Backend}
use reference_guides.Service.Registry.{Dsms, get_dsm, is_other}
use reference_guides.Service.Convert.{dsm_lun_to_k8s_volume, dsm_share_to_k8s_volume}
use reference_guides.Service.Listing.{
  listed, found_lun, mapped_volume, shared_volumes, mapped_volumes, target_volumes,
  dsm_iscsi_volumes, list_iscsi_volumes, share_volumes, yes_uc, dsm_smb_volumes, list_smb_volumes,
  list_volumes, get_volume,
}

-- A DSM is registered under this address.
abbrev pub IsRegistered : Dsms → GoString → Type 0
IsRegistered dsms ip = (dsm : Dsm) × (get_dsm dsms ip ≡ some dsm)

-- The volume is the driver's: its name has the prefix, and its DSM is registered.
pub record IsOwned (dsms : Dsms) (v : K8sVolumeRespSpec) : Type 0 where
  pub named : has_prefix v.name lun_prefix ≡ true
  pub registered : IsRegistered dsms v.dsm_ip
  pub known : (v.protocol ≡ protocol_iscsi) ⊎ (v.protocol ≡ protocol_smb)

found_later :
    (dsm dsm' : Dsm) (dsms : Dsms) → IsRegistered dsms dsm'.ip → IsRegistered (dsm ∷ dsms) dsm'.ip
unfolding get_dsm
found_later dsm dsm' dsms (d, e) = elim (Bool-cases (dsm.ip == dsm'.ip)) [
  | inl t ↦ (dsm, rw t refl)
  | inr f ↦ (d, rw f e)
]

pub each_found : (dsms : Dsms) → All (λ dsm. IsRegistered dsms dsm.ip) dsms
unfolding get_dsm
each_found [] = tt
each_found (dsm ∷ dsms) = (
  (dsm, rw (eq_refl dsm.ip) refl),
  All-imp (λ d. IsRegistered dsms d.ip) (λ d. IsRegistered (dsm ∷ dsms) d.ip) dsms
      (λ d h. found_later dsm d dsms h) (each_found dsms),
)

module _ (dsms : Dsms) (dsm : Dsm) (r : IsRegistered dsms dsm.ip) where
  mapped_volume-IsOwned :
      (target : TargetInfo) (l : Result LunInfo) → All (IsOwned dsms) (mapped_volume dsm target l)
  unfolding mapped_volume dsm_lun_to_k8s_volume
  mapped_volume-IsOwned target l = elim (Bool-cases (has_prefix (found_lun l).name lun_prefix)) [
    | inl t ↦ rw t (record { named = t; registered = r; known = inl refl }, tt)
    | inr f ↦ rw f tt
  ]

  shared_volumes-IsOwned :
      (shares : List ShareInfo) → All (IsOwned dsms) (shared_volumes dsm shares)
  unfolding shared_volumes dsm_share_to_k8s_volume
  shared_volumes-IsOwned shares =
      All-map (IsOwned dsms) (λ share. has_prefix share.name share_prefix ≡ true)
        (dsm_share_to_k8s_volume dsm.ip) (keep (λ share. has_prefix share.name share_prefix) shares)
        (λ share t. record { named = t; registered = r; known = inr refl })
        (All-keep (λ share. has_prefix share.name share_prefix ≡ true)
          (λ share. has_prefix share.name share_prefix) shares (λ share t. t))

module _ (B : Backend) (dsms : Dsms) where
  open B use {State, lun_get, target_list, share_list, is_uc}

  mapped_volumes-IsOwned :
      (dsm : Dsm)
      → IsRegistered dsms dsm.ip
      → (target : TargetInfo) (mappings : List MappedLun) (s : State)
      → All (IsOwned dsms) (mapped_volumes B dsm target mappings s).0
  unfolding mapped_volumes
  mapped_volumes-IsOwned dsm r target [] s = tt
  mapped_volumes-IsOwned dsm r target (mapping ∷ mappings) s =
      let (l, s') = lun_get mapping.lun_uuid dsm s in
      All-append (IsOwned dsms) (mapped_volume dsm target l)
        (mapped_volumes B dsm target mappings s').0 (mapped_volume-IsOwned dsms dsm r target l)
        (mapped_volumes-IsOwned dsm r target mappings s')

  target_volumes-IsOwned :
      (dsm : Dsm)
      → IsRegistered dsms dsm.ip
      → (targets : List TargetInfo) (s : State)
      → All (IsOwned dsms) (target_volumes B dsm targets s).0
  unfolding target_volumes
  target_volumes-IsOwned dsm r [] s = tt
  target_volumes-IsOwned dsm r (target ∷ targets) s =
      let (here, s') = mapped_volumes B dsm target target.mapped_luns s in
      All-append (IsOwned dsms) here (target_volumes B dsm targets s').0
        (mapped_volumes-IsOwned dsm r target target.mapped_luns s)
        (target_volumes-IsOwned dsm r targets s')

  list_iscsi_volumes-IsOwned :
      (rest : Dsms)
      → All (λ dsm. IsRegistered dsms dsm.ip) rest
      → (ip : GoString) (s : State) → All (IsOwned dsms) (list_iscsi_volumes B rest ip s).0
  unfolding list_iscsi_volumes dsm_iscsi_volumes
  list_iscsi_volumes-IsOwned [] h ip s = tt
  list_iscsi_volumes-IsOwned (dsm ∷ rest) (r, h) ip s = elim (Bool-cases (is_other ip dsm)) [
    | inl t ↦ rw t (list_iscsi_volumes-IsOwned rest h ip s)
    | inr f ↦ rw f (
        let (here, s') = dsm_iscsi_volumes B dsm s in
        All-append (IsOwned dsms) here (list_iscsi_volumes B rest ip s').0
          (target_volumes-IsOwned dsm r (listed (target_list dsm s).0) (target_list dsm s).1)
          (list_iscsi_volumes-IsOwned rest h ip s'))
  ]

  share_volumes-IsOwned :
      (dsm : Dsm)
      → IsRegistered dsms dsm.ip
      → (uc : Bool) (s : State) → All (IsOwned dsms) (share_volumes B dsm uc s).0
  unfolding share_volumes
  share_volumes-IsOwned dsm r true s = tt
  share_volumes-IsOwned dsm r false s =
      shared_volumes-IsOwned dsms dsm r (listed (share_list dsm s).0)

  list_smb_volumes-IsOwned :
      (rest : Dsms)
      → All (λ dsm. IsRegistered dsms dsm.ip) rest
      → (ip : GoString) (s : State) → All (IsOwned dsms) (list_smb_volumes B rest ip s).0
  unfolding list_smb_volumes dsm_smb_volumes
  list_smb_volumes-IsOwned [] h ip s = tt
  list_smb_volumes-IsOwned (dsm ∷ rest) (r, h) ip s = elim (Bool-cases (is_other ip dsm)) [
    | inl t ↦ rw t (list_smb_volumes-IsOwned rest h ip s)
    | inr f ↦ rw f (
        let (here, s') = dsm_smb_volumes B dsm s in
        All-append (IsOwned dsms) here (list_smb_volumes B rest ip s').0
          (share_volumes-IsOwned dsm r (yes_uc B (is_uc dsm s).0) (is_uc dsm s).1)
          (list_smb_volumes-IsOwned rest h ip s'))
  ]

  -- Every volume that ListVolumes gives has the driver's prefix in its name, is of one of the two
  -- protocols, and lies on a registered DSM.
  pub list_volumes-IsOwned : (s : State) → All (IsOwned dsms) (list_volumes B dsms s).0
  unfolding list_volumes
  list_volumes-IsOwned s =
      let (luns, s') = list_iscsi_volumes B dsms [] s in
      All-append (IsOwned dsms) luns (list_smb_volumes B dsms [] s').0
        (list_iscsi_volumes-IsOwned dsms (each_found dsms) [] s)
        (list_smb_volumes-IsOwned dsms (each_found dsms) [] s')

  -- A volume that GetVolume finds has the id that was asked for, and is the driver's.
  pub get_volume-IsOwned :
      (vol_id : GoString) (s : State) (v : K8sVolumeRespSpec)
      → (get_volume B dsms vol_id s).0 ≡ some v
      → IsOwned dsms v × (v.volume_id ≡ vol_id)
  unfolding get_volume
  get_volume-IsOwned vol_id s v e =
      let (owned, same) =
        find-All (IsOwned dsms) (λ w. w.volume_id == vol_id) (list_volumes B dsms s).0
          (list_volumes-IsOwned s) e in
      (owned, (eq_iff v.volume_id vol_id).0 same)
