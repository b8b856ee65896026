-- ===== src/Service/Volumes/Expansion.antt =====
-- pkg/dsm/service/dsm.go: ExpandVolume never shrinks a volume, and what size it reports.
use reference_guides.Base.{
  ℕ, ◌+◌, ◌^◌, ◌<◌, ℤ, pos, ltb_ℤ, ◌≤ℤ◌, ◌<ℤ◌, GoString, ◌==◌, Option, none, some, Code, Error,
  Result, ok, err, status, internal, ok-injective, continue, replace_error, pure, ◌≡◌, refl, inl,
  inr, Bool-cases, if◌then◌else◌, arith, subst, uint64,
}
use reference_guides.Utils.{unit_mb, protocol_smb, mb_to_bytes, bytes_to_mb_ceil}
use reference_guides.Utils.Sizes.{rounded_up}
use reference_guides.Models.{K8sVolumeRespSpec}
use reference_guides.WebApi.Session.{Dsm}
use reference_guides.Backend.{Backend}
use reference_guides.Service.Registry.{Dsms, get_dsm}
use reference_guides.Service.Listing.{get_volume}
use reference_guides.Service.Volumes.{expand_on, expand_found, expand_volume}

-- The size that is reported: that of a share is a whole number of megabytes.
abbrev pub expanded_size : K8sVolumeRespSpec → ℤ → ℤ
expanded_size v new_size =
    if v.protocol == protocol_smb then mb_to_bytes (bytes_to_mb_ceil new_size) else new_size

abbrev resized : K8sVolumeRespSpec → ℤ → K8sVolumeRespSpec
resized v size = record v { size_in_bytes = size }

module _ (B : Backend) where
  open B use {State, lun_update, set_share_quota}

  -- The value of an action that ends in `pure`, where it has one.
  pure_value :
      {S A B : Type 0} (r : Result A × S) (e : Error) (b c : B)
      → (continue (λ _. pure b) (replace_error e r)).0 ≡ ok c
      → b ≡ c
  pure_value (ok a, s) e b c h = ok-injective b c h
  pure_value (err e', s) e b c h = absurd (no h)
    where
      no : err e ≡ ok c → ⊥
      no x = cc

  expand_on_lem :
      (dsm : Dsm) (vol_id : GoString) (new_size : ℤ) (v v' : K8sVolumeRespSpec) (s : State)
      → (expand_on B dsm vol_id new_size v s).0 ≡ ok v'
      → resized v (expanded_size v new_size) ≡ v'
  unfolding expand_on
  expand_on_lem dsm vol_id new_size v v' s h = elim (Bool-cases (v.protocol == protocol_smb)) [
    | inl t ↦ rw t (
        pure_value (set_share_quota v.share (bytes_to_mb_ceil new_size) dsm s) (status internal)
          (resized v (mb_to_bytes (bytes_to_mb_ceil new_size))) v' (rw (t, expand_on) at h))
    | inr f ↦ rw f (
        pure_value (lun_update (record { uuid = vol_id; new_size = uint64 new_size }) dsm s)
          (status internal) (resized v new_size) v' (rw (f, expand_on) at h))
  ]

  -- What an expansion that succeeds says: there was such a volume, it was not larger than the new size,
  -- and only the size of the volume that is returned differs.
  pub record IsExpansion (dsms : Dsms) (vol_id : GoString) (new_size : ℤ) (s : State)
      (v' : K8sVolumeRespSpec) : Type 0 where
    pub old : K8sVolumeRespSpec
    pub listed : (get_volume B dsms vol_id s).0 ≡ some old
    pub grows : old.size_in_bytes ≤ℤ new_size
    pub reported : resized old (expanded_size old new_size) ≡ v'

  -- ExpandVolume never shrinks a volume: where it succeeds the volume was listed and at most as large as
  -- the new size, and the answer is that volume with the new size (for a share, rounded up to megabytes).
  pub expand_volume-IsExpansion :
      (dsms : Dsms) (vol_id : GoString) (new_size : ℤ) (s : State) (v' : K8sVolumeRespSpec)
      → (expand_volume B dsms vol_id new_size s).0 ≡ ok v'
      → IsExpansion dsms vol_id new_size s v'
  unfolding expand_volume expand_found
  expand_volume-IsExpansion dsms vol_id new_size s v' h = go (get_volume B dsms vol_id s).0 refl h
    where
      s' : State
      s' = (get_volume B dsms vol_id s).1

      no : {A : Type 0} (e : Error) (a : A) → err e ≡ ok a → ⊥
      no e a x = cc

      on :
          (old : K8sVolumeRespSpec) (o : Option Dsm)
          → get_dsm dsms old.dsm_ip ≡ o
          → (elim o as (λ x. Result K8sVolumeRespSpec × State) [
            | none ↦ (err (status internal), s')
            | some dsm ↦ expand_on B dsm vol_id new_size old s'
          ]).0
            ≡ ok v'
          → resized old (expanded_size old new_size) ≡ v'
      on old none e x = absurd (no (status internal) v' x)
      on old (some dsm) e x = expand_on_lem dsm vol_id new_size old v' s' x

      go :
          (o : Option K8sVolumeRespSpec)
          → (get_volume B dsms vol_id s).0 ≡ o
          → (expand_found B dsms vol_id new_size (o, s')).0 ≡ ok v'
          → IsExpansion dsms vol_id new_size s v'
      go none e x = absurd (no (status Code.invalid_argument) v' x)
      go (some old) e x = elim (Bool-cases (ltb_ℤ new_size old.size_in_bytes)) [
        | inl t ↦ absurd (no (status Code.invalid_argument) v' (rw (t, expand_found) at x))
        | inr f ↦ record {
          old = old;
          listed = e;
          grows = ground (arith, f);
          reported = on old (get_dsm dsms old.dsm_ip) refl (rw (f, expand_found) at x);
        }
      ]

  -- For a size that is not negative and that with a megabyte more fits int64 (n + 1 MB < 2^63): a volume
  -- that ExpandVolume has expanded is at least as large as asked for, and less than a megabyte larger.
  pub expand_volume_size :
      (dsms : Dsms) (vol_id : GoString) (n : ℕ) (s : State) (v' : K8sVolumeRespSpec)
      → n + unit_mb < 2 ^ 63
      → (expand_volume B dsms vol_id (pos n) s).0 ≡ ok v'
      → (pos n ≤ℤ v'.size_in_bytes) × (v'.size_in_bytes <ℤ pos (n + unit_mb))
  expand_volume_size dsms vol_id n s v' fits h =
      let x = expand_volume-IsExpansion dsms vol_id (pos n) s v' h in
      subst (λ v. (pos n ≤ℤ v.size_in_bytes) × (v.size_in_bytes <ℤ pos (n + unit_mb))) x.reported
        (between x.old)
    where
      between :
          (old : K8sVolumeRespSpec)
          → (pos n ≤ℤ expanded_size old (pos n)) × (expanded_size old (pos n) <ℤ pos (n + unit_mb))
      between old = elim (Bool-cases (old.protocol == protocol_smb)) [
        | inl t ↦ rw t ((rounded_up n fits).0, (rounded_up n fits).1)
        | inr f ↦ rw f (omega arith, omega arith)
      ]
