-- ===== src/Service/Volumes/Made.antt =====
-- pkg/dsm/service/dsm.go: where the volume is that CreateVolume gives, made, cloned or restored.
use reference_guides.Base.{
  GoString, ◌==◌, eq_iff, inl, inr, Bool-cases, Option, none, some, [], ◌∷◌, Code, status, internal,
  Result, ok, err, Exec, ◌≡◌, refl, sym, ap, subst, if◌then◌else◌, ValueHas, Ensures, find-All, All,
}
use reference_guides.Utils.{protocol_smb, protocol_iscsi}
use reference_guides.WebApi.Session.{Dsm}
use reference_guides.Backend.{Backend}
use reference_guides.Models.{CreateK8sVolumeSpec, K8sVolumeRespSpec, K8sSnapshotRespSpec}
use reference_guides.Service.Registry.{Dsms, get_dsm, is_other}
use reference_guides.Service.Listing.{get_volume}
use reference_guides.Service.Snapshots.{get_snapshot_by_uuid}
use reference_guides.Service.Listing.Ownership.{IsRegistered, each_found}
use reference_guides.Service.Volumes.Creation.{IsSupported, IsRound, create_on-IsRound}
use reference_guides.Service.Iscsi.{
  choose_location, create_lun_at, create_volume_by_snapshot, create_volume_by_volume,
}
use reference_guides.Service.Smb.{
  create_share_at, create_smb_volume_by_snapshot, create_smb_volume_by_volume,
}
use reference_guides.Service.Volumes.{
  Answer, Round, answered, placed, settled, create_volume_by_dsm, create_smb_volume_by_dsm,
  create_on, create_on_first, clone_on, clone_volume, restore_on, is_mismatched, restore_volume,
  create_volume,
}
use reference_guides.Service.Volumes.Origin.{
  IsOn, create_lun_at-Ensures, create_volume_by_snapshot-Ensures, create_volume_by_volume-Ensures,
  create_share_at-Ensures, create_smb_volume_by_snapshot-Ensures,
  create_smb_volume_by_volume-Ensures,
}

-- The same as ValueHas, for an answer that may be nil.
abbrev pub VolumeHas : (K8sVolumeRespSpec → Type 0) → Result Answer → Type 0
VolumeHas P (ok (some v)) = P v
VolumeHas P (ok none) = Unit
VolumeHas P (err e) = Unit

module _ (B : Backend) (P : K8sVolumeRespSpec → Type 0) where
  open B use {State}

  answered-VolumeHas :
      (r : Result K8sVolumeRespSpec) (s : State) → ValueHas P r → VolumeHas P (answered B (r, s)).0
  answered-VolumeHas (ok v) s h = h
  answered-VolumeHas (err e) s h = tt

  on_source :
      (o : Option Dsm) (s : State) (act : Dsm → Result Answer × State)
      → ((dsm : Dsm) → o ≡ some dsm → VolumeHas P (act dsm).0)
      → VolumeHas P (
          (elim o as (λ x. Result Answer × State) [
            | none ↦ (err (status internal), s)
            | some dsm ↦ act dsm
          ]).0)
  on_source none s act h = tt
  on_source (some dsm) s act h = h dsm refl

module _ (B : Backend) where
  open B use {State}

  -- A volume on the DSM, of the protocol that the spec names.
  abbrev IsFor : CreateK8sVolumeSpec → Dsm → K8sVolumeRespSpec → Type 0
  IsFor spec dsm v = IsOn dsm spec.protocol v

  by_protocol :
      (spec : CreateK8sVolumeSpec) (dsm : Dsm) (s : State)
      (lun share : Exec State K8sVolumeRespSpec)
      → Ensures (IsOn dsm protocol_iscsi) lun
      → Ensures (IsOn dsm protocol_smb) share
      → VolumeHas
          (IsFor spec dsm)
          (if spec.protocol == protocol_iscsi
            then answered B (lun s)
            else if spec.protocol == protocol_smb
            then answered B (share s)
            else (err (status Code.invalid_argument), s)).0
  by_protocol spec dsm s lun share h k = elim (Bool-cases (spec.protocol == protocol_iscsi)) [
    | inl t ↦ rw t (
        answered-VolumeHas B (IsFor spec dsm) (lun s).0 (lun s).1 (
          subst (λ p. ValueHas (IsOn dsm p) (lun s).0)
            (sym ((eq_iff spec.protocol protocol_iscsi).0 t)) (h.ensures s)))
    | inr f ↦ rw f (elim (Bool-cases (spec.protocol == protocol_smb)) [
      | inl t ↦ rw t (
          answered-VolumeHas B (IsFor spec dsm) (share s).0 (share s).1 (
            subst (λ p. ValueHas (IsOn dsm p) (share s).0)
              (sym ((eq_iff spec.protocol protocol_smb).0 t)) (k.ensures s)))
      | inr g ↦ rw g tt
    ])
  ]

  -- The volume lies on a registered DSM and is of the protocol of the spec.
  abbrev pub IsMade : Dsms → CreateK8sVolumeSpec → K8sVolumeRespSpec → Type 0
  IsMade dsms spec v = IsRegistered dsms v.dsm_ip × (v.protocol ≡ spec.protocol)

  registered_on :
      (dsms : Dsms) (ip : GoString) (dsm : Dsm) (spec : CreateK8sVolumeSpec) (r : Result Answer)
      → IsRegistered dsms dsm.ip
      → VolumeHas (IsFor spec dsm) r
      → VolumeHas (IsMade dsms spec) r
  registered_on dsms ip dsm spec (ok (some v)) (d, g) (on, same) =
      (subst (IsRegistered dsms) (sym on) (d, g), same)
  registered_on dsms ip dsm spec (ok none) g h = tt
  registered_on dsms ip dsm spec (err e) g h = tt

  placed-VolumeHas :
      (P : K8sVolumeRespSpec → Type 0) (make : CreateK8sVolumeSpec → Exec State K8sVolumeRespSpec)
      (spec : CreateK8sVolumeSpec) (r : Result CreateK8sVolumeSpec) (s : State)
      → ((spec' : CreateK8sVolumeSpec) → Ensures P (make spec'))
      → VolumeHas P (placed B make spec (r, s)).0
  placed-VolumeHas P make spec (err e) s h = tt
  placed-VolumeHas P make spec (ok spec') s h =
      answered-VolumeHas B P (make spec' s).0 (make spec' s).1 ((h spec').ensures s)

  create_on-VolumeHas :
      (dsm : Dsm) (spec : CreateK8sVolumeSpec) (s : State)
      → VolumeHas (IsFor spec dsm) (create_on B dsm spec s).0
  unfolding create_on create_volume_by_dsm create_smb_volume_by_dsm
  create_on-VolumeHas dsm spec s = elim (Bool-cases (spec.protocol == protocol_iscsi)) [
    | inl t ↦ rw t (
        subst
          (λ p.
            VolumeHas (IsOn dsm p)
              (placed B (create_lun_at B dsm) spec (choose_location B dsm spec s)).0)
          (sym ((eq_iff spec.protocol protocol_iscsi).0 t))
          (placed-VolumeHas (IsOn dsm protocol_iscsi) (create_lun_at B dsm) spec
            (choose_location B dsm spec s).0 (choose_location B dsm spec s).1
            (create_lun_at-Ensures B dsm)))
    | inr f ↦ rw f (elim (Bool-cases (spec.protocol == protocol_smb)) [
      | inl t ↦ rw t (
          subst
            (λ p.
              VolumeHas (IsOn dsm p)
                (placed B (create_share_at B dsm) spec (choose_location B dsm spec s)).0)
            (sym ((eq_iff spec.protocol protocol_smb).0 t))
            (placed-VolumeHas (IsOn dsm protocol_smb) (create_share_at B dsm) spec
              (choose_location B dsm spec s).0 (choose_location B dsm spec s).1
              (create_share_at-Ensures B dsm)))
      | inr g ↦ rw g tt
    ])
  ]

  settled-IsMade :
      (dsms : Dsms) (spec : CreateK8sVolumeSpec) (dsm : Dsm)
      (go : CreateK8sVolumeSpec → State → Result Answer × State) (round : Round B)
      → IsSupported spec.protocol
      → IsRegistered dsms dsm.ip
      → IsRound B spec round
      → VolumeHas (IsFor spec dsm) round.0
      → ((spec' : CreateK8sVolumeSpec) (s' : State)
          → IsSupported spec'.protocol
          → VolumeHas (IsMade dsms spec') (go spec' s').0)
      → VolumeHas (IsMade dsms spec) (settled B go round).0
  settled-IsMade dsms spec dsm go (ok v, spec', s) h g r has k =
      registered_on dsms dsm.ip dsm spec (ok v) g has
  settled-IsMade dsms spec dsm go (err e, spec', s) h g (a, same) has k =
      subst (λ p. VolumeHas (λ v. IsRegistered dsms v.dsm_ip × (v.protocol ≡ p)) (go spec' s).0)
        (ap (λ x. x.protocol) same) (k spec' s (subst (λ x. IsSupported x.protocol) (sym same) h))

  create_on_first-IsMade :
      (dsms rest : Dsms)
      → All (λ dsm. IsRegistered dsms dsm.ip) rest
      → (spec : CreateK8sVolumeSpec) (s : State) → IsSupported spec.protocol
      → VolumeHas (IsMade dsms spec) (create_on_first B rest spec s).0
  unfolding create_on_first
  create_on_first-IsMade dsms [] g spec s h = tt
  create_on_first-IsMade dsms (dsm ∷ rest) (here, g) spec s h =
      elim (Bool-cases (is_other spec.dsm_ip dsm)) [
        | inl t ↦ rw t (create_on_first-IsMade dsms rest g spec s h)
        | inr f ↦ rw f (
            settled-IsMade dsms spec dsm (λ spec' s'. create_on_first B rest spec' s')
              (create_on B dsm spec s) h here (create_on-IsRound B dsm spec s h)
              (create_on-VolumeHas dsm spec s) (create_on_first-IsMade dsms rest g))
      ]

  found_address :
      (dsms : Dsms) (ip : GoString) (dsm : Dsm)
      → get_dsm dsms ip ≡ some dsm
      → IsRegistered dsms dsm.ip
  unfolding get_dsm
  found_address dsms ip dsm e =
      let (u, test) = find-All (λ (d : Dsm). d ≡ d) (λ d. d.ip == ip) dsms (each_same dsms) e in
      (dsm, subst (λ x. get_dsm dsms x ≡ some dsm) (sym ((eq_iff dsm.ip ip).0 test)) e)
    where
      each_same : (xs : Dsms) → All (λ (d : Dsm). d ≡ d) xs
      each_same [] = tt
      each_same (x ∷ xs) = (refl, each_same xs)

  source-IsMade :
      (dsms : Dsms) (spec : CreateK8sVolumeSpec) (ip : GoString) (s : State)
      (act : Dsm → Result Answer × State)
      → ((dsm : Dsm) → VolumeHas (IsFor spec dsm) (act dsm).0)
      → VolumeHas
          (IsMade dsms spec)
          (elim (get_dsm dsms ip) as (λ x. Result Answer × State) [
            | none ↦ (err (status internal), s)
            | some dsm ↦ act dsm
          ]).0
  source-IsMade dsms spec ip s act h =
      on_source B (IsMade dsms spec) (get_dsm dsms ip) s act
        (λ dsm e. registered_on dsms ip dsm spec (act dsm).0 (found_address dsms ip dsm e) (h dsm))

  clone_volume-IsMade :
      (dsms : Dsms) (spec : CreateK8sVolumeSpec) (found : Answer) (s : State)
      → VolumeHas (IsMade dsms spec) (clone_volume B dsms spec (found, s)).0
  unfolding clone_volume clone_on
  clone_volume-IsMade dsms spec none s = tt
  clone_volume-IsMade dsms spec (some src) s =
      source-IsMade dsms spec src.dsm_ip s (λ dsm. clone_on B dsm spec src s)
        (λ dsm.
          by_protocol spec dsm s (create_volume_by_volume B dsm spec src.lun)
            (create_smb_volume_by_volume B dsm spec src.share)
            (create_volume_by_volume-Ensures B dsm spec src.lun)
            (create_smb_volume_by_volume-Ensures B dsm spec src.share))

  restore_volume-IsMade :
      (dsms : Dsms) (spec : CreateK8sVolumeSpec) (found : Option K8sSnapshotRespSpec) (s : State)
      → VolumeHas (IsMade dsms spec) (restore_volume B dsms spec (found, s)).0
  unfolding restore_volume restore_on
  restore_volume-IsMade dsms spec none s = tt
  restore_volume-IsMade dsms spec (some src) s = elim (Bool-cases (is_mismatched B spec src)) [
    | inl t ↦ rw t tt
    | inr f ↦ rw f (
        source-IsMade dsms spec src.dsm_ip s (λ dsm. restore_on B dsm spec src s)
          (λ dsm.
            by_protocol spec dsm s (create_volume_by_snapshot B dsm spec src)
              (create_smb_volume_by_snapshot B dsm spec src)
              (create_volume_by_snapshot-Ensures B dsm spec src)
              (create_smb_volume_by_snapshot-Ensures B dsm spec src)))
  ]

  -- For a protocol that is supported, a volume that CreateVolume gives, made from nothing, cloned or
  -- restored, lies on a registered DSM and is of the protocol of the spec.
  pub create_volume-IsMade :
      (dsms : Dsms) (spec : CreateK8sVolumeSpec) (s : State)
      → IsSupported spec.protocol
      → VolumeHas (IsMade dsms spec) (create_volume B dsms spec s).0
  unfolding create_volume
  create_volume-IsMade dsms spec s h = elim (Bool-cases (spec.source_volume_id == [])) [
    | inr f ↦ rw f (
        clone_volume-IsMade dsms spec (get_volume B dsms spec.source_volume_id s).0
          (get_volume B dsms spec.source_volume_id s).1)
    | inl t ↦ rw t (elim (Bool-cases (spec.source_snapshot_id == [])) [
      | inr f ↦ rw f (
          restore_volume-IsMade dsms spec (get_snapshot_by_uuid B dsms spec.source_snapshot_id s).0
            (get_snapshot_by_uuid B dsms spec.source_snapshot_id s).1)
      | inl u ↦ rw u (create_on_first-IsMade dsms dsms (each_found dsms) spec s h)
    ])
  ]
