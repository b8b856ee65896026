-- ===== src/Service/Snapshots/Taken.antt =====
-- pkg/dsm/service/dsm.go: what CreateSnapshot has done when it succeeds.
use reference_guides.Base.{
  GoString, ◌==◌, eq_iff, ◌&&◌, Bool, true, find, find-All, All, Option, none, some, List, [], ◌∷◌,
  Code, status, Result, ok, err, ok-injective, ◌≡◌, refl, sym, ap, ◌∙◌, arith, ◌++◌, ◌⊎◌, inl, inr,
  Bool-cases,
}
use reference_guides.Models.{
  K8sVolumeRespSpec, K8sSnapshotRespSpec, CreateK8sVolumeSnapshotSpec, share_snapshot_desc_prefix,
}
use reference_guides.WebApi.Session.{Dsm}
use reference_guides.Backend.{Backend}
use reference_guides.Service.Registry.{Dsms, get_dsm}
use reference_guides.Utils.{protocol_smb, protocol_iscsi}
use reference_guides.WebApi.Types.{SnapshotCreateSpec, ShareSnapshotCreateSpec}
use reference_guides.Service.Listing.{get_volume}
use reference_guides.Service.Snapshots.{
  list_iscsi_snapshots_by_dsm, list_smb_snapshots_by_dsm, get_iscsi_snapshot, found_or,
  or_not_found, take_lun_snapshot, take_share_snapshot, snapshot_on, snapshot_found,
  create_snapshot,
}

find_hit : {A : Type 0} (p : A → Bool) (xs : List A) (x : A) → find p xs ≡ some x → p x ≡ true
find_hit {A = A} p xs x e = (find-All (λ (y : A). y ≡ y) p xs (each xs) e).1
  where
    each : (ys : List A) → All (λ (y : A). y ≡ y) ys
    each [] = tt
    each (y ∷ ys) = (refl, each ys)

module _ (B : Backend) (dsms : Dsms) where
  open B use {State, snapshot_create, share_snapshot_create}

  get_iscsi_snapshot_lem :
      (rest : Dsms) (uuid : GoString) (s : State) (snap : K8sSnapshotRespSpec)
      → (get_iscsi_snapshot B dsms rest uuid s).0 ≡ some snap
      → snap.uuid ≡ uuid
  unfolding get_iscsi_snapshot
  get_iscsi_snapshot_lem [] uuid s snap e = absurd (no e)
    where
      no : none ≡ some snap → ⊥
      no x = cc
  get_iscsi_snapshot_lem (dsm ∷ rest) uuid s snap e =
      let (snaps, s') = list_iscsi_snapshots_by_dsm B dsms dsm s in
      go snaps s' (find (λ x. x.uuid == uuid) snaps) refl e
        (get_iscsi_snapshot_lem rest uuid s' snap)
    where
      go :
          (snaps : List K8sSnapshotRespSpec) (s' : State) (o : Option K8sSnapshotRespSpec)
          → find (λ x. x.uuid == uuid) snaps ≡ o
          → (found_or B (λ t. get_iscsi_snapshot B dsms rest uuid t) (o, s')).0 ≡ some snap
          → ((get_iscsi_snapshot B dsms rest uuid s').0 ≡ some snap → snap.uuid ≡ uuid)
          → snap.uuid ≡ uuid
      go snaps s' none f x later = later x
      go snaps s' (some y) f x later =
          (eq_iff snap.uuid uuid).0 (find_hit (λ z. z.uuid == uuid) snaps snap (f ∙ x))

  found :
      (o : Option K8sSnapshotRespSpec) (t : State) (snap : K8sSnapshotRespSpec)
      → (or_not_found B (o, t)).0 ≡ ok snap
      → o ≡ some snap
  found none t snap e = absurd (no e)
    where
      no : err (status Code.not_found) ≡ ok snap → ⊥
      no x = cc
  found (some x) t snap e = ap some (ok-injective x snap e)

  lun_taken :
      (spec : CreateK8sVolumeSnapshotSpec) (r : Result GoString) (s : State)
      (snap : K8sSnapshotRespSpec)
      → (take_lun_snapshot B dsms spec (r, s)).0 ≡ ok snap
      → r ≡ ok snap.uuid
  unfolding take_lun_snapshot
  lun_taken spec (err e) s snap h = cc
  lun_taken spec (ok made) s snap h =
      let (o, t) = get_iscsi_snapshot B dsms dsms made s in
      ap ok (sym (get_iscsi_snapshot_lem dsms made s snap (found o t snap h)))

  share_taken :
      (dsm : Dsm) (spec : CreateK8sVolumeSnapshotSpec) (r : Result GoString) (s : State)
      (snap : K8sSnapshotRespSpec)
      → (take_share_snapshot B dsms dsm spec (r, s)).0 ≡ ok snap
      → (r ≡ ok snap.time) × (snap.parent_uuid ≡ spec.k8s_volume_id)
  unfolding take_share_snapshot
  share_taken dsm spec (err e) s snap h = cc
  share_taken dsm spec (ok made) s snap h =
      let (snaps, s') = list_smb_snapshots_by_dsm B dsms dsm s in
      let test =
        λ (x : K8sSnapshotRespSpec). x.time == made && x.parent_uuid == spec.k8s_volume_id in
      let (t, p) =
        both (snap.time == made) (snap.parent_uuid == spec.k8s_volume_id)
          (find_hit test snaps snap (found (find test snaps) s' snap h)) in
      (ap ok (sym ((eq_iff snap.time made).0 t)), (eq_iff snap.parent_uuid spec.k8s_volume_id).0 p)
    where
      both : (b c : Bool) → (b && c) ≡ true → (b ≡ true) × (c ≡ true)
      both b c e = ground (arith, e)

  -- The request for the snapshot of a LUN, and the one for that of a share.
  abbrev pub lun_request : CreateK8sVolumeSnapshotSpec → SnapshotCreateSpec
  lun_request spec = record {
    name = spec.snapshot_name;
    lun_uuid = spec.k8s_volume_id;
    description = spec.description;
    taken_by = spec.taken_by;
    is_locked = spec.is_locked;
  }

  abbrev pub share_request :
      CreateK8sVolumeSnapshotSpec → K8sVolumeRespSpec → ShareSnapshotCreateSpec
  share_request spec v = record {
    share_name = v.share.name;
    desc = share_snapshot_desc_prefix ++ spec.snapshot_name;
    is_locked = spec.is_locked;
  }

  -- The snapshot is the one that this DSM took of the volume: for a LUN it has the uuid that the DSM
  -- answered, for a share the time, and it is of the volume.
  abbrev pub IsTakenOn :
      CreateK8sVolumeSnapshotSpec → K8sSnapshotRespSpec → Dsm → K8sVolumeRespSpec → State → Type 0
  IsTakenOn spec snap dsm v s =
      ((v.protocol ≡ protocol_iscsi)
        × ((snapshot_create (lun_request spec) dsm s).0 ≡ ok snap.uuid))
      ⊎ ((v.protocol ≡ protocol_smb)
          × ((share_snapshot_create (share_request spec v) dsm s).0 ≡ ok snap.time)
          × (snap.parent_uuid ≡ spec.k8s_volume_id))

  taken_on :
      (spec : CreateK8sVolumeSnapshotSpec) (snap : K8sSnapshotRespSpec) (dsm : Dsm)
      (v : K8sVolumeRespSpec) (s : State)
      → (snapshot_on B dsms dsm v spec s).0 ≡ ok snap
      → IsTakenOn spec snap dsm v s
  unfolding snapshot_on
  taken_on spec snap dsm v s h = elim (Bool-cases (v.protocol == protocol_iscsi)) [
    | inl t ↦ inl (
      (eq_iff v.protocol protocol_iscsi).0 t,
      lun_taken spec (snapshot_create (lun_request spec) dsm s).0
          (snapshot_create (lun_request spec) dsm s).1 snap (rw (t, snapshot_on) at h),
    )
    | inr f ↦ elim (Bool-cases (v.protocol == protocol_smb)) [
      | inl t ↦
          let (answered, parent) =
            share_taken dsm spec (share_snapshot_create (share_request spec v) dsm s).0
              (share_snapshot_create (share_request spec v) dsm s).1 snap
              (rw (f, t, snapshot_on) at h) in
          inr ((eq_iff v.protocol protocol_smb).0 t, answered, parent)
      | inr g ↦ absurd (refused (rw (f, g, snapshot_on) at h))
    ]
  ]
    where
      refused : err (status Code.invalid_argument) ≡ ok snap → ⊥
      refused x = cc

  -- The volume of the spec was listed, its DSM is registered, and the snapshot is the one that this DSM
  -- took of it.
  pub record IsTaken (spec : CreateK8sVolumeSnapshotSpec) (s : State) (snap : K8sSnapshotRespSpec)
      : Type 0 where
    pub volume : K8sVolumeRespSpec
    pub listed : (get_volume B dsms spec.k8s_volume_id s).0 ≡ some volume
    pub dsm : Dsm
    pub registered : get_dsm dsms volume.dsm_ip ≡ some dsm
    pub taken : IsTakenOn spec snap dsm volume (get_volume B dsms spec.k8s_volume_id s).1

  -- CreateSnapshot succeeds only for a listed volume on a registered DSM, and returns the snapshot that
  -- this DSM took for the request: of a LUN the one with the uuid that it answered, of a share the one of
  -- that volume with the time that it answered.
  pub create_snapshot-IsTaken :
      (spec : CreateK8sVolumeSnapshotSpec) (s : State) (snap : K8sSnapshotRespSpec)
      → (create_snapshot B dsms spec s).0 ≡ ok snap
      → IsTaken spec s snap
  unfolding create_snapshot snapshot_found
  create_snapshot-IsTaken spec s snap h = go (get_volume B dsms spec.k8s_volume_id s).0 refl h
    where
      s' : State
      s' = (get_volume B dsms spec.k8s_volume_id s).1

      on :
          (v : K8sVolumeRespSpec)
          → (get_volume B dsms spec.k8s_volume_id s).0 ≡ some v
          → (o : Option Dsm) → get_dsm dsms v.dsm_ip ≡ o
          → (elim o as (λ x. Result K8sSnapshotRespSpec × State) [
            | none ↦ (err (status Code.invalid_argument), s')
            | some dsm ↦ snapshot_on B dsms dsm v spec s'
          ]).0
            ≡ ok snap
          → IsTaken spec s snap
      on v e none r x = cc
      on v e (some dsm) r x = record {
        volume = v;
        listed = e;
        dsm = dsm;
        registered = r;
        taken = taken_on spec snap dsm v s' x;
      }

      go :
          (o : Option K8sVolumeRespSpec)
          → (get_volume B dsms spec.k8s_volume_id s).0 ≡ o
          → (snapshot_found B dsms spec (o, s')).0 ≡ ok snap
          → IsTaken spec s snap
      go none e x = cc
      go (some v) e x = on v e (get_dsm dsms v.dsm_ip) refl x
