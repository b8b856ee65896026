-- ===== src/Service/Volumes/Creation.antt =====
-- pkg/dsm/service/dsm.go and share_volume.go: what CreateVolume answers: a volume or a gRPC status.
use reference_guides.Base.{
  GoString, ◌==◌, Bool, true, false, ◌⊎◌, inl, inr, none, some, [], status, internal, Result, ok,
  err, Exec, or_fail, replace_error, continue, pure, ◌≡◌, refl, if◌then◌else◌, IsStatus, IsPolite,
  Polite, polite, ℤ, ◌>>=◌,
}
use reference_guides.Utils.{protocol_smb, protocol_iscsi}
use reference_guides.WebApi.Types.{LunInfo, ShareInfo}
use reference_guides.WebApi.Session.{Dsm}
use reference_guides.Backend.{Backend}
use reference_guides.Models.{CreateK8sVolumeSpec, K8sVolumeRespSpec, K8sSnapshotRespSpec}
use reference_guides.Service.Iscsi.{
  get_first_available_volume, choose_location, map_lun, create_lun_at, finish_clone,
  create_volume_by_snapshot, create_volume_by_volume,
}
use reference_guides.Service.Smb.{
  ensure_quota, create_share_at, create_smb_volume_by_snapshot, create_smb_volume_by_volume,
}
use reference_guides.Service.Volumes.{
  Answer, Round, answered, placed, create_volume_by_dsm, create_smb_volume_by_dsm, create_on,
}

-- A volume that is not nil, or an error made by `status`.
abbrev pub IsAnswer : Result Answer → Type 0
IsAnswer (ok none) = ⊥
IsAnswer (ok (some v)) = Unit
IsAnswer (err e) = IsStatus e

abbrev pub IsSupported : GoString → Type 0
IsSupported protocol = ((protocol == protocol_iscsi) ≡ true) ⊎ ((protocol == protocol_smb) ≡ true)

module _ (B : Backend) where
  open B use {State}

  choose_location-Polite :
      (dsm : Dsm) (spec : CreateK8sVolumeSpec) → Polite (choose_location B dsm spec)
  unfolding choose_location
  choose_location-Polite dsm spec = search polite

  map_lun-Polite :
      (dsm : Dsm) (spec : CreateK8sVolumeSpec) (lun : LunInfo) → Polite (map_lun B dsm spec lun)
  unfolding map_lun
  map_lun-Polite dsm spec lun = search polite

  create_lun_at-Polite :
      (dsm : Dsm) (spec : CreateK8sVolumeSpec) → Polite (create_lun_at B dsm spec)
  unfolding create_lun_at
  create_lun_at-Polite dsm spec = search (polite, map_lun-Polite) depth 12

  finish_clone-Polite :
      (dsm : Dsm) (spec : CreateK8sVolumeSpec) (r : Result GoString)
      → Polite (finish_clone B dsm spec r)
  unfolding finish_clone
  finish_clone-Polite dsm spec r = search (polite, map_lun-Polite) depth 12

  pub create_volume_by_snapshot-Polite :
      (dsm : Dsm) (spec : CreateK8sVolumeSpec) (src : K8sSnapshotRespSpec)
      → Polite (create_volume_by_snapshot B dsm spec src)
  unfolding create_volume_by_snapshot
  create_volume_by_snapshot-Polite dsm spec src = search (polite, finish_clone-Polite) depth 12

  pub create_volume_by_volume-Polite :
      (dsm : Dsm) (spec : CreateK8sVolumeSpec) (src : LunInfo)
      → Polite (create_volume_by_volume B dsm spec src)
  unfolding create_volume_by_volume
  create_volume_by_volume-Polite dsm spec src = search (polite, finish_clone-Polite) depth 12

  ensure_quota-Polite :
      (share : ShareInfo) (size : ℤ) (dsm : Dsm) → Polite (ensure_quota B share size dsm)
  unfolding ensure_quota
  ensure_quota-Polite share size dsm = search polite depth 12

  pub create_smb_volume_by_snapshot-Polite :
      (dsm : Dsm) (spec : CreateK8sVolumeSpec) (src : K8sSnapshotRespSpec)
      → Polite (create_smb_volume_by_snapshot B dsm spec src)
  unfolding create_smb_volume_by_snapshot
  create_smb_volume_by_snapshot-Polite dsm spec src = search (polite, ensure_quota-Polite) depth 16

  pub create_smb_volume_by_volume-Polite :
      (dsm : Dsm) (spec : CreateK8sVolumeSpec) (src : ShareInfo)
      → Polite (create_smb_volume_by_volume B dsm spec src)
  unfolding create_smb_volume_by_volume
  create_smb_volume_by_volume-Polite dsm spec src = search (polite, ensure_quota-Polite) depth 16

  create_share_at-Polite :
      (dsm : Dsm) (spec : CreateK8sVolumeSpec) → Polite (create_share_at B dsm spec)
  unfolding create_share_at
  create_share_at-Polite dsm spec = search polite depth 12

  pub answered-IsAnswer :
      (r : Result K8sVolumeRespSpec) (s : State) → IsPolite r → IsAnswer (answered B (r, s)).0
  answered-IsAnswer (ok v) s h = tt
  answered-IsAnswer (err e) s h = h

  -- The spec after step 1 differs at most in its location.
  KeepsSpec : CreateK8sVolumeSpec → Result CreateK8sVolumeSpec → Type 0
  KeepsSpec spec (ok spec') = spec' ≡ record spec { location = spec'.location }
  KeepsSpec spec (err e) = Unit

  choose_location-KeepsSpec :
      (dsm : Dsm) (spec : CreateK8sVolumeSpec) (s : State)
      → KeepsSpec spec (choose_location B dsm spec s).0
  unfolding choose_location KeepsSpec
  choose_location-KeepsSpec dsm spec s = go (spec.location == [])
    where
      found :
          (r : Result GoString × State)
          → KeepsSpec spec
              (continue
                (λ path. pure (record spec { location = path }))
                (replace_error (status internal) r)).0
      found (ok path, t) = refl
      found (err e, t) = tt

      go :
          (b : Bool)
          → KeepsSpec spec
              ((if b
                  then (or_fail (status internal) (get_first_available_volume B dsm spec.size)
                      >>= λ path. pure (record spec { location = path }))
                  else pure spec)
                s).0
      go true = found (get_first_available_volume B dsm spec.size s)
      go false = refl

  -- What a round of the loop leaves: an answer, and the spec with at most another location.
  abbrev pub IsRound : CreateK8sVolumeSpec → Round B → Type 0
  IsRound spec (r, spec', s) = IsAnswer r × (spec' ≡ record spec { location = spec'.location })

  placed-IsRound :
      (make : CreateK8sVolumeSpec → Exec State K8sVolumeRespSpec) (spec : CreateK8sVolumeSpec)
      (r : Result CreateK8sVolumeSpec) (s : State)
      → ((spec' : CreateK8sVolumeSpec) → Polite (make spec'))
      → IsPolite r
      → KeepsSpec spec r
      → IsRound spec (placed B make spec (r, s))
  unfolding KeepsSpec
  placed-IsRound make spec (err e) s h p k = (p, refl)
  placed-IsRound make spec (ok spec') s h p k =
      (answered-IsAnswer (make spec' s).0 (make spec' s).1 ((h spec').polite s), k)

  pub create_on-IsRound :
      (dsm : Dsm) (spec : CreateK8sVolumeSpec) (s : State)
      → IsSupported spec.protocol
      → IsRound spec (create_on B dsm spec s)
  unfolding create_on create_volume_by_dsm create_smb_volume_by_dsm
  create_on-IsRound dsm spec s h =
      go (spec.protocol == protocol_iscsi) (spec.protocol == protocol_smb) h
    where
      step :
          (make : CreateK8sVolumeSpec → Exec State K8sVolumeRespSpec)
          → ((spec' : CreateK8sVolumeSpec) → Polite (make spec'))
          → IsRound spec (placed B make spec (choose_location B dsm spec s))
      step make p =
          placed-IsRound make spec (choose_location B dsm spec s).0 (choose_location B dsm spec s).1
            p ((choose_location-Polite dsm spec).polite s) (choose_location-KeepsSpec dsm spec s)

      go :
          (b c : Bool)
          → (b ≡ true) ⊎ (c ≡ true)
          → IsRound spec (
              if b
              then create_volume_by_dsm B dsm spec s
              else if c
              then create_smb_volume_by_dsm B dsm spec s
              else (ok none, spec, s))
      go true c x = step (create_lun_at B dsm) (create_lun_at-Polite dsm)
      go false true x = step (create_share_at B dsm) (create_share_at-Polite dsm)
      go false false (inl x) = cc
      go false false (inr x) = cc
