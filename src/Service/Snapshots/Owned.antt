-- ===== src/Service/Snapshots/Owned.antt =====
-- pkg/dsm/service/dsm.go: what every snapshot that is listed satisfies, and deleting a snapshot.
use reference_guides.Base.{
  GoString, ◌==◌, eq_iff, find-All, map, All, All-append, Option, none, some, List, [], ◌∷◌, ◌++◌,
  Error, Result, ok, err, ◌≡◌, refl, ap, ◌⊎◌, inl, inr,
}
use reference_guides.Utils.{protocol_smb, protocol_iscsi}
use reference_guides.Models.{K8sVolumeRespSpec, K8sSnapshotRespSpec}
use reference_guides.WebApi.Types.{SnapshotInfo}
use reference_guides.WebApi.Session.{Dsm}
use reference_guides.Backend.{Backend}
use reference_guides.Service.Registry.{Dsms, get_dsm}
use reference_guides.Service.Convert.{
  dsm_lun_snapshot_to_k8s_snapshot, dsm_share_snapshot_to_k8s_snapshot,
}
use reference_guides.Service.Listing.{listed, list_iscsi_volumes, list_smb_volumes}
use reference_guides.Service.Listing.Ownership.{IsRegistered, each_found}
use reference_guides.Service.Snapshots.{
  lun_snapshots, list_iscsi_snapshots_by_dsm, share_snapshots, list_smb_snapshots_by_dsm,
  snapshots_of, list_all_snapshots, get_snapshot_by_uuid, delete_snapshot_on, delete_snapshot_found,
  delete_snapshot, after_share_delete, after_lun_delete, gone_or, failed_or, get_smb_snapshot,
}

-- The DSM of the snapshot is registered, and its protocol is one of the two.
pub record IsKept (dsms : Dsms) (snap : K8sSnapshotRespSpec) : Type 0 where
  pub registered : IsRegistered dsms snap.dsm_ip
  pub known : (snap.protocol ≡ protocol_iscsi) ⊎ (snap.protocol ≡ protocol_smb)

All-mapped :
    {A B : Type 0} (P : B → Type 0) (f : A → B)
    → ((a : A) → P (f a))
    → (xs : List A) → All P (map f xs)
All-mapped P f h [] = tt
All-mapped P f h (x ∷ xs) = (h x, All-mapped P f h xs)

module _ (B : Backend) (dsms : Dsms) where
  open B use {
    State, snapshot_list, snapshot_get, snapshot_delete, share_snapshot_list, share_snapshot_delete,
    parse_time,
  }

  lun_snapshots-IsKept :
      (dsm : Dsm)
      → IsRegistered dsms dsm.ip
      → (volumes : List K8sVolumeRespSpec) (s : State)
      → All (IsKept dsms) (lun_snapshots B dsm volumes s).0
  unfolding lun_snapshots dsm_lun_snapshot_to_k8s_snapshot
  lun_snapshots-IsKept dsm r [] s = tt
  lun_snapshots-IsKept dsm r (v ∷ volumes) s =
      let (l, s') = snapshot_list v.lun.uuid dsm s in
      All-append (IsKept dsms)
        (map (λ info. dsm_lun_snapshot_to_k8s_snapshot dsm.ip info v.lun) (listed l))
        (lun_snapshots B dsm volumes s').0
        (All-mapped (IsKept dsms) (λ info. dsm_lun_snapshot_to_k8s_snapshot dsm.ip info v.lun)
          (λ info. record { registered = r; known = inl refl }) (listed l))
        (lun_snapshots-IsKept dsm r volumes s')

  share_snapshots-IsKept :
      (dsm : Dsm)
      → IsRegistered dsms dsm.ip
      → (volumes : List K8sVolumeRespSpec) (s : State)
      → All (IsKept dsms) (share_snapshots B dsm volumes s).0
  unfolding share_snapshots dsm_share_snapshot_to_k8s_snapshot
  share_snapshots-IsKept dsm r [] s = tt
  share_snapshots-IsKept dsm r (v ∷ volumes) s =
      let (l, s') = share_snapshot_list v.share.name dsm s in
      All-append (IsKept dsms)
        (map (λ info. dsm_share_snapshot_to_k8s_snapshot parse_time dsm.ip info v.share) (listed l))
        (share_snapshots B dsm volumes s').0
        (All-mapped (IsKept dsms)
          (λ info. dsm_share_snapshot_to_k8s_snapshot parse_time dsm.ip info v.share)
          (λ info. record { registered = r; known = inr refl }) (listed l))
        (share_snapshots-IsKept dsm r volumes s')

  snapshots_of-IsKept :
      (rest : Dsms)
      → All (λ dsm. IsRegistered dsms dsm.ip) rest
      → (s : State) → All (IsKept dsms) (snapshots_of B dsms rest s).0
  unfolding snapshots_of list_iscsi_snapshots_by_dsm list_smb_snapshots_by_dsm
  snapshots_of-IsKept [] h s = tt
  snapshots_of-IsKept (dsm ∷ rest) (r, h) s =
      let (vols, t) = list_iscsi_volumes B dsms dsm.ip s in
      let (luns, s₁) = list_iscsi_snapshots_by_dsm B dsms dsm s in
      let (vols', t') = list_smb_volumes B dsms dsm.ip s₁ in
      let (shares, s₂) = list_smb_snapshots_by_dsm B dsms dsm s₁ in
      All-append (IsKept dsms) luns (shares ++ (snapshots_of B dsms rest s₂).0)
        (lun_snapshots-IsKept dsm r vols t)
        (All-append (IsKept dsms) shares (snapshots_of B dsms rest s₂).0
          (share_snapshots-IsKept dsm r vols' t') (snapshots_of-IsKept rest h s₂))

  -- Every snapshot that ListAllSnapshots gives lies on a registered DSM and is of one of the two protocols.
  pub list_all_snapshots-IsKept : (s : State) → All (IsKept dsms) (list_all_snapshots B dsms s).0
  unfolding list_all_snapshots
  list_all_snapshots-IsKept s = snapshots_of-IsKept dsms (each_found dsms) s

  get_snapshot_by_uuid-IsKept :
      (uuid : GoString) (s : State) (snap : K8sSnapshotRespSpec)
      → (get_snapshot_by_uuid B dsms uuid s).0 ≡ some snap
      → IsKept dsms snap × (snap.uuid ≡ uuid)
  unfolding get_snapshot_by_uuid
  get_snapshot_by_uuid-IsKept uuid s snap e =
      let (kept, same) =
        find-All (IsKept dsms) (λ x. x.uuid == uuid) (list_all_snapshots B dsms s).0
          (list_all_snapshots-IsKept s) e in
      (kept, (eq_iff snap.uuid uuid).0 same)

  -- The DSM deleted the snapshot, or after the failure the snapshot is not found any more.
  abbrev pub IsDeletedOn : GoString → K8sSnapshotRespSpec → Dsm → State → Type 0
  IsDeletedOn uuid snap dsm s =
      ((snap.protocol ≡ protocol_smb)
        × (((share_snapshot_delete snap.time snap.parent_name dsm s).0 ≡ ok tt)
            ⊎ ((get_smb_snapshot B dsms dsms uuid
                  (share_snapshot_delete snap.time snap.parent_name dsm s).1).0
                ≡ none)))
      ⊎ ((snap.protocol ≡ protocol_iscsi)
          × (((snapshot_delete uuid dsm s).0 ≡ ok tt)
              ⊎ ((e : Error) × ((snapshot_get uuid dsm (snapshot_delete uuid dsm s).1).0 ≡ err e))))

  share_gone :
      (uuid : GoString) (r : Result Unit) (s : State)
      → (after_share_delete B dsms uuid (r, s)).0 ≡ ok tt
      → (r ≡ ok tt) ⊎ ((get_smb_snapshot B dsms dsms uuid s).0 ≡ none)
  unfolding after_share_delete
  share_gone uuid (ok tt) s h = inl refl
  share_gone uuid (err e) s h =
      inr (gone (get_smb_snapshot B dsms dsms uuid s).0 (get_smb_snapshot B dsms dsms uuid s).1 h)
    where
      gone :
          (o : Option K8sSnapshotRespSpec) (t : State) → (gone_or B e (o, t)).0 ≡ ok tt → o ≡ none
      gone none t x = refl
      gone (some snap) t x = cc

  lun_gone :
      (dsm : Dsm) (uuid : GoString) (r : Result Unit) (s : State)
      → (after_lun_delete B dsm uuid (r, s)).0 ≡ ok tt
      → (r ≡ ok tt) ⊎ ((e : Error) × ((snapshot_get uuid dsm s).0 ≡ err e))
  unfolding after_lun_delete
  lun_gone dsm uuid (ok tt) s h = inl refl
  lun_gone dsm uuid (err e) s h =
      inr (failed (snapshot_get uuid dsm s).0 (snapshot_get uuid dsm s).1 h)
    where
      failed :
          (r : Result SnapshotInfo) (t : State)
          → (failed_or B e (r, t)).0 ≡ ok tt
          → (e' : Error) × (r ≡ err e')
      failed (ok info) t x = cc
      failed (err e') t x = (e', refl)

  deleted_on :
      (uuid : GoString) (snap : K8sSnapshotRespSpec) (dsm : Dsm) (s : State)
      → (snap.protocol ≡ protocol_iscsi) ⊎ (snap.protocol ≡ protocol_smb)
      → (delete_snapshot_on B dsms dsm snap uuid s).0 ≡ ok tt
      → IsDeletedOn uuid snap dsm s
  unfolding delete_snapshot_on ◌==◌
  deleted_on uuid snap dsm s (inr smb) h = inl (
    smb,
    share_gone uuid (share_snapshot_delete snap.time snap.parent_name dsm s).0
        (share_snapshot_delete snap.time snap.parent_name dsm s).1
        (rw (smb, delete_snapshot_on) at h),
  )
  deleted_on uuid snap dsm s (inl iscsi) h = inr (
    iscsi,
    lun_gone dsm uuid (snapshot_delete uuid dsm s).0 (snapshot_delete uuid dsm s).1
        (rw (iscsi, delete_snapshot_on) at h),
  )

  -- A snapshot of the id was listed, its DSM is registered, and the snapshot is gone from there.
  pub record IsDeleted (uuid : GoString) (s : State) : Type 0 where
    pub snap : K8sSnapshotRespSpec
    pub listed : (get_snapshot_by_uuid B dsms uuid s).0 ≡ some snap
    pub same : snap.uuid ≡ uuid
    pub dsm : Dsm
    pub registered : get_dsm dsms snap.dsm_ip ≡ some dsm
    pub deleted : IsDeletedOn uuid snap dsm (get_snapshot_by_uuid B dsms uuid s).1

  -- DeleteSnapshot succeeds only where the id is not listed, and then does no more than listing, or where
  -- the registered DSM of the listed snapshot deleted it: for a LUN the one of that uuid, for a share the
  -- one of its time and name. If the DSM answers with an error, success needs that the snapshot is found
  -- no more: for a LUN SnapshotGet fails, for a share its uuid is no longer listed.
  pub delete_snapshot-IsDeleted :
      (uuid : GoString) (s after : State)
      → delete_snapshot B dsms uuid s ≡ (ok tt, after)
      → (((get_snapshot_by_uuid B dsms uuid s).0 ≡ none)
          × ((get_snapshot_by_uuid B dsms uuid s).1 ≡ after))
        ⊎ IsDeleted uuid s
  unfolding delete_snapshot delete_snapshot_found
  delete_snapshot-IsDeleted uuid s after h = go (get_snapshot_by_uuid B dsms uuid s).0 refl h
    where
      s' : State
      s' = (get_snapshot_by_uuid B dsms uuid s).1

      go :
          (o : Option K8sSnapshotRespSpec)
          → (get_snapshot_by_uuid B dsms uuid s).0 ≡ o
          → delete_snapshot_found B dsms uuid (o, s') ≡ (ok tt, after)
          → ((o ≡ none) × (s' ≡ after)) ⊎ IsDeleted uuid s
      go none e x = inl (refl, ap (λ (r : Result Unit × State). r.1) x)
      go (some snap) e x =
          let (kept, same) = get_snapshot_by_uuid-IsKept uuid s snap e in
          let (dsm, found) = kept.registered in
          inr (record {
            snap = snap;
            listed = e;
            same = same;
            dsm = dsm;
            registered = found;
            deleted =
                deleted_on uuid snap dsm s' kept.known
                  (ap (λ (r : Result Unit × State). r.0) (rw (found, delete_snapshot_found) at x));
          })
