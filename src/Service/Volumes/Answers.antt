-- ===== src/Service/Volumes/Answers.antt =====
-- pkg/dsm/service/dsm.go: CreateVolume answers with a volume or a gRPC status.
use reference_guides.Base.{
  ◌==◌, Bool, true, false, inl, inr, Bool-cases, Option, none, some, [], ◌∷◌, Code, status,
  internal, Result, ok, err, sym, subst, if◌then◌else◌,
}
use reference_guides.Utils.{protocol_smb, protocol_iscsi}
use reference_guides.WebApi.Session.{Dsm}
use reference_guides.Backend.{Backend}
use reference_guides.Models.{CreateK8sVolumeSpec, K8sVolumeRespSpec, K8sSnapshotRespSpec}
use reference_guides.Service.Registry.{Dsms, get_dsm, is_other}
use reference_guides.Service.Listing.{get_volume}
use reference_guides.Service.Snapshots.{get_snapshot_by_uuid}
use reference_guides.Service.Iscsi.{create_volume_by_snapshot, create_volume_by_volume}
use reference_guides.Service.Smb.{create_smb_volume_by_snapshot, create_smb_volume_by_volume}
use reference_guides.Service.Volumes.{
  Answer, Round, answered, settled, create_on, create_on_first, clone_on, clone_volume, restore_on,
  is_mismatched, restore_volume, create_volume,
}
use reference_guides.Service.Volumes.Creation.{
  IsAnswer, IsSupported, IsRound, create_on-IsRound, answered-IsAnswer,
  create_volume_by_snapshot-Polite, create_volume_by_volume-Polite,
  create_smb_volume_by_snapshot-Polite, create_smb_volume_by_volume-Polite,
}

module _ (B : Backend) where
  open B use {State}

  settled-IsAnswer :
      (spec : CreateK8sVolumeSpec) (go : CreateK8sVolumeSpec → State → Result Answer × State)
      (round : Round B)
      → IsSupported spec.protocol
      → IsRound B spec round
      → ((spec' : CreateK8sVolumeSpec) (s' : State)
          → IsSupported spec'.protocol
          → IsAnswer (go spec' s').0)
      → IsAnswer (settled B go round).0
  settled-IsAnswer spec go (ok v, spec', s) h (a, same) k = a
  settled-IsAnswer spec go (err e, spec', s) h (a, same) k =
      k spec' s (subst (λ x. IsSupported x.protocol) (sym same) h)

  create_on_first-IsAnswer :
      (dsms : Dsms) (spec : CreateK8sVolumeSpec) (s : State)
      → IsSupported spec.protocol
      → IsAnswer (create_on_first B dsms spec s).0
  unfolding create_on_first
  create_on_first-IsAnswer [] spec s h = tt
  create_on_first-IsAnswer (dsm ∷ dsms) spec s h = elim (Bool-cases (is_other spec.dsm_ip dsm)) [
    | inl t ↦ rw t (create_on_first-IsAnswer dsms spec s h)
    | inr f ↦ rw f (
        settled-IsAnswer spec (λ spec' s'. create_on_first B dsms spec' s') (create_on B dsm spec s)
          h (create_on-IsRound B dsm spec s h) (create_on_first-IsAnswer dsms))
  ]

  clone_on-IsAnswer :
      (dsm : Dsm) (spec : CreateK8sVolumeSpec) (src : K8sVolumeRespSpec) (s : State)
      → IsAnswer (clone_on B dsm spec src s).0
  unfolding clone_on
  clone_on-IsAnswer dsm spec src s =
      go (spec.protocol == protocol_iscsi) (spec.protocol == protocol_smb)
    where
      lun : Result K8sVolumeRespSpec × State
      lun = create_volume_by_volume B dsm spec src.lun s

      share : Result K8sVolumeRespSpec × State
      share = create_smb_volume_by_volume B dsm spec src.share s

      go :
          (b c : Bool)
          → IsAnswer
              (if b
                then answered B lun
                else if c
                then answered B share
                else (err (status Code.invalid_argument), s)).0
      go true c =
          answered-IsAnswer B lun.0 lun.1
            ((create_volume_by_volume-Polite B dsm spec src.lun).polite s)
      go false true =
          answered-IsAnswer B share.0 share.1
            ((create_smb_volume_by_volume-Polite B dsm spec src.share).polite s)
      go false false = tt

  restore_on-IsAnswer :
      (dsm : Dsm) (spec : CreateK8sVolumeSpec) (src : K8sSnapshotRespSpec) (s : State)
      → IsAnswer (restore_on B dsm spec src s).0
  unfolding restore_on
  restore_on-IsAnswer dsm spec src s =
      go (spec.protocol == protocol_iscsi) (spec.protocol == protocol_smb)
    where
      lun : Result K8sVolumeRespSpec × State
      lun = create_volume_by_snapshot B dsm spec src s

      share : Result K8sVolumeRespSpec × State
      share = create_smb_volume_by_snapshot B dsm spec src s

      go :
          (b c : Bool)
          → IsAnswer
              (if b
                then answered B lun
                else if c
                then answered B share
                else (err (status Code.invalid_argument), s)).0
      go true c =
          answered-IsAnswer B lun.0 lun.1
            ((create_volume_by_snapshot-Polite B dsm spec src).polite s)
      go false true =
          answered-IsAnswer B share.0 share.1
            ((create_smb_volume_by_snapshot-Polite B dsm spec src).polite s)
      go false false = tt

  on_source :
      (o : Option Dsm) (s : State) (act : Dsm → Result Answer × State)
      → ((dsm : Dsm) → IsAnswer (act dsm).0)
      → IsAnswer (
          (elim o as (λ x. Result Answer × State) [
            | none ↦ (err (status internal), s)
            | some dsm ↦ act dsm
          ]).0)
  on_source none s act h = tt
  on_source (some dsm) s act h = h dsm

  clone_volume-IsAnswer :
      (dsms : Dsms) (spec : CreateK8sVolumeSpec) (found : Answer) (s : State)
      → IsAnswer (clone_volume B dsms spec (found, s)).0
  unfolding clone_volume
  clone_volume-IsAnswer dsms spec none s = tt
  clone_volume-IsAnswer dsms spec (some src) s =
      on_source (get_dsm dsms src.dsm_ip) s (λ dsm. clone_on B dsm spec src s)
        (λ dsm. clone_on-IsAnswer dsm spec src s)

  restore_volume-IsAnswer :
      (dsms : Dsms) (spec : CreateK8sVolumeSpec) (found : Option K8sSnapshotRespSpec) (s : State)
      → IsAnswer (restore_volume B dsms spec (found, s)).0
  unfolding restore_volume
  restore_volume-IsAnswer dsms spec none s = tt
  restore_volume-IsAnswer dsms spec (some src) s = elim (Bool-cases (is_mismatched B spec src)) [
    | inl t ↦ rw t tt
    | inr f ↦ rw f (
        on_source (get_dsm dsms src.dsm_ip) s (λ dsm. restore_on B dsm spec src s)
          (λ dsm. restore_on-IsAnswer dsm spec src s))
  ]

  -- For a protocol that is supported, CreateVolume answers with a volume that is not nil or with a gRPC
  -- status, whatever the DSMs answer.
  pub create_volume-IsAnswer :
      (dsms : Dsms) (spec : CreateK8sVolumeSpec) (s : State)
      → IsSupported spec.protocol
      → IsAnswer (create_volume B dsms spec s).0
  unfolding create_volume
  create_volume-IsAnswer dsms spec s h = elim (Bool-cases (spec.source_volume_id == [])) [
    | inr f ↦ rw f (
        clone_volume-IsAnswer dsms spec (get_volume B dsms spec.source_volume_id s).0
          (get_volume B dsms spec.source_volume_id s).1)
    | inl t ↦ rw t (elim (Bool-cases (spec.source_snapshot_id == [])) [
      | inr f ↦ rw f (
          restore_volume-IsAnswer dsms spec
            (get_snapshot_by_uuid B dsms spec.source_snapshot_id s).0
            (get_snapshot_by_uuid B dsms spec.source_snapshot_id s).1)
      | inl u ↦ rw u (create_on_first-IsAnswer dsms spec s h)
    ])
  ]
