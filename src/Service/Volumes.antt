-- ===== src/Service/Volumes.antt =====
-- pkg/dsm/service/dsm.go: creating, deleting and expanding a volume on the registered DSMs.
pub mod Creation
pub mod Answers
pub mod Placement
pub mod Origin
pub mod Made
pub mod Expansion
pub mod Deletion
use reference_guides.Base.{
  ℤ, ltb_ℤ, eqb, uint64, itoa, GoString, ◌==◌, ◌/=◌, Bool, ◌&&◌, length, Option, none, some, [],
  ◌∷◌, Error, status, internal, invalid_argument, not_found, is_no_such_lun, Result, ok, err, Exec,
  pure, fail, attempt, or_fail, ◌>>=◌, ◌>>◌, if◌then◌else◌,
}
use reference_guides.Utils.{protocol_smb, protocol_iscsi, bytes_to_mb_ceil, mb_to_bytes}
use reference_guides.WebApi.Types.{TargetInfo, LunUpdateSpec}
use reference_guides.WebApi.Session.{Dsm}
use reference_guides.Backend.{Backend}
use reference_guides.Models.{CreateK8sVolumeSpec, K8sVolumeRespSpec, K8sSnapshotRespSpec}
use reference_guides.Service.Registry.{Dsms, get_dsm, is_other}
use reference_guides.Service.Listing.{get_volume}
use reference_guides.Service.Iscsi.{
  choose_location, create_lun_at, create_volume_by_snapshot, create_volume_by_volume,
}
use reference_guides.Service.Smb.{
  create_share_at, create_smb_volume_by_snapshot, create_smb_volume_by_volume,
}
use reference_guides.Service.Snapshots.{get_snapshot_by_uuid}

-- A pointer to a volume, which may be nil beside a nil error.
abbrev pub Answer : Type 0
Answer = Option K8sVolumeRespSpec

module _ (B : Backend) where
  open B use {
    State, lun_get, lun_delete, lun_update, target_get, target_delete, share_delete,
    set_share_quota,
  }

  abbrev pub answered : Result K8sVolumeRespSpec × State → Result Answer × State
  answered (ok v, s) = (ok (some v), s)
  answered (err e, s) = (err e, s)

  -- What one round of the loop over the DSMs leaves: its result, the spec, and the state.
  abbrev pub Round : Type 0
  Round = Result Answer × CreateK8sVolumeSpec × State

  abbrev pub placed :
      (CreateK8sVolumeSpec → Exec State K8sVolumeRespSpec)
      → CreateK8sVolumeSpec
      → Result CreateK8sVolumeSpec × State
      → Round
  placed make spec (err e, s) = (err e, spec, s)
  placed make spec (ok spec', s) = let (r, s') = answered (make spec' s) in (r, spec', s')

  -- createVolumeByDsm
  unfoldable pub create_volume_by_dsm : Dsm → CreateK8sVolumeSpec → State → Round
  create_volume_by_dsm dsm spec s = placed (create_lun_at B dsm) spec (choose_location B dsm spec s)

  -- createSMBVolumeByDsm
  unfoldable pub create_smb_volume_by_dsm : Dsm → CreateK8sVolumeSpec → State → Round
  create_smb_volume_by_dsm dsm spec s =
      placed (create_share_at B dsm) spec (choose_location B dsm spec s)

  -- The body of the loop. A protocol that is neither leaves a nil volume and a nil error.
  unfoldable pub create_on : Dsm → CreateK8sVolumeSpec → State → Round
  create_on dsm spec s =
      if spec.protocol == protocol_iscsi
      then create_volume_by_dsm dsm spec s
      else if spec.protocol == protocol_smb
      then create_smb_volume_by_dsm dsm spec s
      else (ok none, spec, s)

  -- An error is logged and the loop goes on, with the spec as the failed round left it.
  abbrev pub settled :
      (CreateK8sVolumeSpec → State → Result Answer × State) → Round → Result Answer × State
  settled go (ok v, spec, s) = (ok v, s)
  settled go (err e, spec, s) = go spec s

  -- The loop over the DSMs in CreateVolume.
  unfoldable pub create_on_first : Dsms → CreateK8sVolumeSpec → Exec State Answer
  create_on_first [] spec s = (err (status internal), s)
  create_on_first (dsm ∷ dsms) spec s =
      if is_other spec.dsm_ip dsm
      then create_on_first dsms spec s
      else settled (λ spec' s'. create_on_first dsms spec' s') (create_on dsm spec s)

  -- The first part of CreateVolume, for a spec with a source volume.
  unfoldable pub clone_on : Dsm → CreateK8sVolumeSpec → K8sVolumeRespSpec → Exec State Answer
  clone_on dsm spec src s =
      if spec.protocol == protocol_iscsi
      then answered (create_volume_by_volume B dsm spec src.lun s)
      else if spec.protocol == protocol_smb
      then answered (create_smb_volume_by_volume B dsm spec src.share s)
      else (err (status invalid_argument), s)

  unfoldable pub clone_volume : Dsms → CreateK8sVolumeSpec → Answer × State → Result Answer × State
  clone_volume dsms spec (none, s) = (err (status not_found), s)
  clone_volume dsms spec (some src, s) = elim (get_dsm dsms src.dsm_ip) [
    | none ↦ (err (status internal), s)
    | some dsm ↦ clone_on dsm spec src s
  ]

  -- The second part, for a spec with a source snapshot.
  unfoldable pub restore_on : Dsm → CreateK8sVolumeSpec → K8sSnapshotRespSpec → Exec State Answer
  restore_on dsm spec src s =
      if spec.protocol == protocol_iscsi
      then answered (create_volume_by_snapshot B dsm spec src s)
      else if spec.protocol == protocol_smb
      then answered (create_smb_volume_by_snapshot B dsm spec src s)
      else (err (status invalid_argument), s)

  -- The source is on another DSM, at another location or of another protocol than the spec says.
  unfoldable pub is_mismatched : CreateK8sVolumeSpec → K8sSnapshotRespSpec → Bool
  is_mismatched spec src =
      (if (spec.dsm_ip /= []) && (spec.dsm_ip /= src.dsm_ip)
        then Bool.true
        else if (spec.location /= []) && (spec.location /= src.root_path)
        then Bool.true
        else spec.protocol /= src.protocol)

  unfoldable pub restore_volume :
      Dsms → CreateK8sVolumeSpec → Option K8sSnapshotRespSpec × State → Result Answer × State
  restore_volume dsms spec (none, s) = (err (status not_found), s)
  restore_volume dsms spec (some src, s) =
      if is_mismatched spec src
      then (err (status invalid_argument), s)
      else elim (get_dsm dsms src.dsm_ip) [
        | none ↦ (err (status internal), s)
        | some dsm ↦ restore_on dsm spec src s
      ]

  -- CreateVolume
  unfoldable pub create_volume : Dsms → CreateK8sVolumeSpec → Exec State Answer
  create_volume dsms spec s =
      if spec.source_volume_id /= []
      then clone_volume dsms spec (get_volume B dsms spec.source_volume_id s)
      else if spec.source_snapshot_id /= []
      then restore_volume dsms spec (get_snapshot_by_uuid B dsms spec.source_snapshot_id s)
      else create_on_first dsms spec s

  abbrev pub after_failed_lun_delete : {A : Type 0} → Error → Result A → Exec State Unit
  after_failed_lun_delete e (ok a) s = (err e, s)
  after_failed_lun_delete e (err e') s = if is_no_such_lun e' then (ok tt, s) else (err e, s)

  abbrev pub after_failed_delete : {A : Type 0} → Error → Result A → Exec State Unit
  after_failed_delete e (ok a) s = (err e, s)
  after_failed_delete e (err e') s = (ok tt, s)

  -- The target goes with its LUN unless it maps another number of LUNs than one.
  unfoldable pub delete_target : Dsm → TargetInfo → Exec State Unit
  delete_target dsm target s =
      if eqb (length target.mapped_luns) 1
      then elim (target_delete (itoa target.target_id) dsm s).0 [
        | ok u ↦ (ok tt, (target_delete (itoa target.target_id) dsm s).1)
        | err e ↦
            (do
              found ← attempt (target_get (itoa target.target_id) dsm)
              after_failed_delete e found)
              (target_delete (itoa target.target_id) dsm s).1
      ]
      else (ok tt, s)

  unfoldable pub delete_lun : Dsm → K8sVolumeRespSpec → Exec State Unit
  delete_lun dsm v s = elim (lun_delete v.lun.uuid dsm s).0 [
    | ok u ↦ delete_target dsm v.target (lun_delete v.lun.uuid dsm s).1
    | err e ↦
        (do found ← attempt (lun_get v.lun.uuid dsm); after_failed_lun_delete e found)
          (lun_delete v.lun.uuid dsm s).1
  ]

  unfoldable pub delete_on : Dsm → K8sVolumeRespSpec → Exec State Unit
  delete_on dsm v s =
      if v.protocol == protocol_smb then share_delete v.share.name dsm s else delete_lun dsm v s

  unfoldable pub delete_found : Dsms → Answer × State → Result Unit × State
  delete_found dsms (none, s) = (ok tt, s)
  delete_found dsms (some v, s) = elim (get_dsm dsms v.dsm_ip) [
    | none ↦ (err (status internal), s)
    | some dsm ↦ delete_on dsm v s
  ]

  -- DeleteVolume
  unfoldable pub delete_volume : Dsms → GoString → Exec State Unit
  delete_volume dsms vol_id s = delete_found dsms (get_volume B dsms vol_id s)

  unfoldable pub expand_on : Dsm → GoString → ℤ → K8sVolumeRespSpec → Exec State K8sVolumeRespSpec
  expand_on dsm vol_id new_size v =
      if v.protocol == protocol_smb
      then (do
        or_fail (status internal) (set_share_quota v.share (bytes_to_mb_ceil new_size) dsm)
        pure (record v { size_in_bytes = mb_to_bytes (bytes_to_mb_ceil new_size) }))
      else (do
        or_fail (status internal)
            (lun_update (record { uuid = vol_id; new_size = uint64 new_size }) dsm)
        pure (record v { size_in_bytes = new_size }))

  unfoldable pub expand_found :
      Dsms → GoString → ℤ → Answer × State → Result K8sVolumeRespSpec × State
  expand_found dsms vol_id new_size (none, s) = (err (status invalid_argument), s)
  expand_found dsms vol_id new_size (some v, s) =
      if ltb_ℤ new_size v.size_in_bytes
      then (err (status invalid_argument), s)
      else elim (get_dsm dsms v.dsm_ip) [
        | none ↦ (err (status internal), s)
        | some dsm ↦ expand_on dsm vol_id new_size v s
      ]

  -- ExpandVolume
  unfoldable pub expand_volume : Dsms → GoString → ℤ → Exec State K8sVolumeRespSpec
  expand_volume dsms vol_id new_size s =
      expand_found dsms vol_id new_size (get_volume B dsms vol_id s)
