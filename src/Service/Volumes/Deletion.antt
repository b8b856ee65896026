-- ===== src/Service/Volumes/Deletion.antt =====
-- pkg/dsm/service/dsm.go: what DeleteVolume leaves and when it says that a volume is gone.
use reference_guides.Base.{
  GoString, ◌==◌, Option, none, some, Error, no_such_lun_error, is_no_such_lun, Result, ok, err,
  status, ◌≡◌, refl, ap, ◌⊎◌, inl, inr, true, false, Bool-cases, if◌then◌else◌,
}
use reference_guides.Utils.{protocol_smb, protocol_iscsi}
use reference_guides.Models.{K8sVolumeRespSpec}
use reference_guides.WebApi.Types.{LunInfo}
use reference_guides.WebApi.Session.{Dsm}
use reference_guides.Backend.{Backend}
use reference_guides.Service.Registry.{Dsms, get_dsm}
use reference_guides.Service.Listing.{get_volume}
use reference_guides.Service.Listing.Ownership.{get_volume-IsOwned}
use reference_guides.Service.Volumes.{
  delete_lun, delete_on, delete_found, delete_volume, after_failed_lun_delete,
}

is_no_such_lun_lem : (e : Error) → is_no_such_lun e ≡ true → e ≡ no_such_lun_error
is_no_such_lun_lem no_such_lun_error h = refl
is_no_such_lun_lem Error.out_of_free_space_error h = cc
is_no_such_lun_lem Error.already_exist_error h = cc
is_no_such_lun_lem Error.bad_parameters_error h = cc
is_no_such_lun_lem Error.lun_reach_max_count_error h = cc
is_no_such_lun_lem Error.target_reach_max_count_error h = cc
is_no_such_lun_lem Error.no_such_snapshot_error h = cc
is_no_such_lun_lem Error.bad_lun_type_error h = cc
is_no_such_lun_lem Error.snapshot_reach_max_count_error h = cc
is_no_such_lun_lem (Error.iscsi_default_error c) h = cc
is_no_such_lun_lem Error.no_such_share_error h = cc
is_no_such_lun_lem Error.share_reach_max_count_error h = cc
is_no_such_lun_lem Error.share_system_busy_error h = cc
is_no_such_lun_lem (Error.share_default_error c) h = cc
is_no_such_lun_lem Error.errorf h = cc
is_no_such_lun_lem Error.nil_dereference h = cc
is_no_such_lun_lem Error.index_out_of_range h = cc
is_no_such_lun_lem (status c) h = cc

module _ (B : Backend) where
  open B use {State, lun_get, lun_delete, share_delete}

  -- The LUN was deleted, or LunGet says after the failure that there is none.
  abbrev pub IsGone : Dsm → K8sVolumeRespSpec → State → Type 0
  IsGone dsm v s =
      ((lun_delete v.lun.uuid dsm s).0 ≡ ok tt)
      ⊎ ((lun_get v.lun.uuid dsm (lun_delete v.lun.uuid dsm s).1).0 ≡ err no_such_lun_error)

  Result-cases : {A : Type 0} (r : Result A) → ((a : A) × (r ≡ ok a)) ⊎ ((e : Error) × (r ≡ err e))
  Result-cases (ok a) = inl (a, refl)
  Result-cases (err e) = inr (e, refl)

  unlocked :
      (e : Error) (r : Result LunInfo) (s : State)
      → (after_failed_lun_delete B e r s).0 ≡ ok tt
      → r ≡ err no_such_lun_error
  unlocked e (ok lun) s h = cc
  unlocked e (err e') s h = elim (Bool-cases (is_no_such_lun e')) [
    | inl t ↦ ap err (is_no_such_lun_lem e' t)
    | inr f ↦ absurd (refused (rw (f, after_failed_lun_delete) at h))
  ]
    where
      refused : (if false then ok tt else err e) ≡ ok tt → ⊥
      refused h = cc

  -- DeleteVolume says that a LUN's volume is deleted only where the DSM deleted the LUN or said that
  -- there is no such LUN.
  pub delete_lun-IsGone :
      (dsm : Dsm) (v : K8sVolumeRespSpec) (s : State)
      → (delete_lun B dsm v s).0 ≡ ok tt
      → IsGone dsm v s
  unfolding delete_lun
  delete_lun-IsGone dsm v s h = elim (Result-cases (lun_delete v.lun.uuid dsm s).0) [
    | inl (tt, e) ↦ inl e
    | inr (e, x) ↦ inr (
        unlocked e (lun_get v.lun.uuid dsm (lun_delete v.lun.uuid dsm s).1).0
          (lun_get v.lun.uuid dsm (lun_delete v.lun.uuid dsm s).1).1 (rw (x, delete_lun) at h))
  ]

  -- The DSM deleted the share, or the LUN is gone.
  abbrev pub IsDeletedOn : Dsm → K8sVolumeRespSpec → State → Type 0
  IsDeletedOn dsm v s =
      ((v.protocol ≡ protocol_smb) × ((share_delete v.share.name dsm s).0 ≡ ok tt))
      ⊎ ((v.protocol ≡ protocol_iscsi) × IsGone dsm v s)

  deleted_on :
      (dsm : Dsm) (v : K8sVolumeRespSpec) (s : State)
      → (v.protocol ≡ protocol_iscsi) ⊎ (v.protocol ≡ protocol_smb)
      → (delete_on B dsm v s).0 ≡ ok tt
      → IsDeletedOn dsm v s
  unfolding delete_on ◌==◌ delete_lun
  deleted_on dsm v s (inr smb) h = inl (smb, rw (smb, delete_on) at h)
  deleted_on dsm v s (inl iscsi) h =
      inr (iscsi, delete_lun-IsGone dsm v s (rw (iscsi, delete_on) at h))

  -- A volume of the id was listed, its DSM is registered, and the volume is gone from there.
  pub record IsDeleted (dsms : Dsms) (vol_id : GoString) (s : State) : Type 0 where
    pub volume : K8sVolumeRespSpec
    pub listed : (get_volume B dsms vol_id s).0 ≡ some volume
    pub same : volume.volume_id ≡ vol_id
    pub dsm : Dsm
    pub registered : get_dsm dsms volume.dsm_ip ≡ some dsm
    pub deleted : IsDeletedOn dsm volume (get_volume B dsms vol_id s).1

  -- DeleteVolume succeeds only where the id is not listed, and then does no more than listing, or where
  -- the registered DSM of the listed volume deleted its share, or deleted its LUN or said that there is no
  -- such LUN.
  pub delete_volume-IsDeleted :
      (dsms : Dsms) (vol_id : GoString) (s after : State)
      → delete_volume B dsms vol_id s ≡ (ok tt, after)
      → (((get_volume B dsms vol_id s).0 ≡ none) × ((get_volume B dsms vol_id s).1 ≡ after))
        ⊎ IsDeleted dsms vol_id s
  unfolding delete_volume delete_found
  delete_volume-IsDeleted dsms vol_id s after h = go (get_volume B dsms vol_id s).0 refl h
    where
      s' : State
      s' = (get_volume B dsms vol_id s).1

      go :
          (o : Option K8sVolumeRespSpec)
          → (get_volume B dsms vol_id s).0 ≡ o
          → delete_found B dsms (o, s') ≡ (ok tt, after)
          → ((o ≡ none) × (s' ≡ after)) ⊎ IsDeleted dsms vol_id s
      go none e x = inl (refl, ap (λ (r : Result Unit × State). r.1) x)
      go (some v) e x =
          let (owned, same) = get_volume-IsOwned B dsms vol_id s v e in
          let (dsm, found) = owned.registered in
          inr (record {
            volume = v;
            listed = e;
            same = same;
            dsm = dsm;
            registered = found;
            deleted =
                deleted_on dsm v s' owned.known
                  (ap (λ (r : Result Unit × State). r.0) (rw (found, delete_found) at x));
          })
