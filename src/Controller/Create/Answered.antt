-- ===== src/Controller/Create/Answered.antt =====
-- pkg/driver/controllerserver.go: what CreateVolume answers with.
use reference_guides.Base.{
  ℤ, eqb_ℤ, eq_of_parts, ◌==◌, Bool, true, false, ◌&&◌, ◌||◌, not, inl, inr, Bool-cases, Option,
  none, some, Error, Result, ok, err, ok-injective, ◌≡◌, refl, ap, ◌∙◌, arith,
}
use reference_guides.Utils.{protocol_smb, protocol_iscsi, bytes_to_mb, bytes_to_mb_ceil}
use reference_guides.Models.{CreateK8sVolumeSpec, K8sVolumeRespSpec}
use reference_guides.Driver.{Driver}
use reference_guides.DsmService.{DsmService}
use reference_guides.Controller.Types.{CsiVolume}
use reference_guides.Controller.Create.{
  CreateVolumeRequest, check_request, is_other_capacity, volume_of, respond, find_or_create,
  handle_create_volume,
}
use reference_guides.Controller.Create.Checked.{IsChecked, check_request-IsChecked}

module _ (S : DsmService) (d : Driver) (req : CreateVolumeRequest) where
  open S use {State, get_volume_by_name}

  -- The answer describes a volume that the service found by the name or made for the spec, with the
  -- capacity of the spec: to the byte for a LUN, in whole megabytes for a share.
  pub record IsCreated (s : State) (v : CsiVolume) (after : State) : Type 0 where
    pub spec : CreateK8sVolumeSpec
    pub accepted : check_request d req ≡ ok spec
    pub checked : IsChecked d req spec
    pub volume : K8sVolumeRespSpec
    pub given : find_or_create S d spec (get_volume_by_name req.name s) ≡ (ok (some volume), after)
    pub answer : volume_of req volume ≡ v
    pub fits : is_other_capacity volume spec.size ≡ false
    pub lun_capacity : (volume.protocol == protocol_iscsi) ≡ true → volume.size_in_bytes ≡ spec.size
    pub share_capacity :
        (volume.protocol == protocol_smb) ≡ true
        → bytes_to_mb volume.size_in_bytes ≡ bytes_to_mb_ceil spec.size

  no : {A : Type 0} {e : Error} (a : A) → err e ≡ ok a → ⊥
  no a x = cc

  capacity :
      (v : K8sVolumeRespSpec) (size : ℤ)
      → is_other_capacity v size ≡ false
      → ((v.protocol == protocol_iscsi) ≡ true → v.size_in_bytes ≡ size)
        × ((v.protocol == protocol_smb) ≡ true
            → bytes_to_mb v.size_in_bytes ≡ bytes_to_mb_ceil size)
  unfolding is_other_capacity
  capacity v size h =
      tests (v.protocol == protocol_iscsi) (v.protocol == protocol_smb) v.size_in_bytes size
        (bytes_to_mb v.size_in_bytes) (bytes_to_mb_ceil size) h
    where
      tests :
          (b c : Bool) (x y z w : ℤ)
          → (b && not (eqb_ℤ x y) || c && not (eqb_ℤ z w)) ≡ false
          → (b ≡ true → x ≡ y) × (c ≡ true → z ≡ w)
      tests b c x y z w e = ground (arith, eq_of_parts x y, eq_of_parts z w)

  -- CreateVolume succeeds only for a request that passes all checks, with a volume of that name that the
  -- service found or made, whose capacity is the one asked for.
  pub handle_create_volume-IsCreated :
      (s : State) (v : CsiVolume) (after : State)
      → handle_create_volume S d req s ≡ (ok v, after)
      → IsCreated s v after
  unfolding handle_create_volume respond
  handle_create_volume-IsCreated s v after h = go (check_request d req) refl h
    where
      answered :
          (spec : CreateK8sVolumeSpec)
          → check_request d req ≡ ok spec
          → (r : Result (Option K8sVolumeRespSpec)) (t : State)
          → find_or_create S d spec (get_volume_by_name req.name s) ≡ (r, t)
          → respond S d req spec.size (r, t) ≡ (ok v, after)
          → IsCreated s v after
      answered spec c (err e) t f x = absurd (no v (ap (λ y. y.0) x))
      answered spec c (ok none) t f x = absurd (no v (ap (λ y. y.0) x))
      answered spec c (ok (some w)) t f x = elim (Bool-cases (is_other_capacity w spec.size)) [
        | inl o ↦ absurd (no v (ap (λ y. y.0) (rw (o, respond) at x)))
        | inr n ↦ record {
          spec = spec;
          accepted = c;
          checked = check_request-IsChecked d req spec c;
          volume = w;
          given =
              f ∙ ap (λ (y : Result CsiVolume × State). (ok (some w), y.1)) (rw (n, respond) at x);
          answer = ok-injective (volume_of req w) v (ap (λ y. y.0) (rw (n, respond) at x));
          fits = n;
          lun_capacity = (capacity w spec.size n).0;
          share_capacity = (capacity w spec.size n).1;
        }
      ]

      go :
          (r : Result CreateK8sVolumeSpec)
          → check_request d req ≡ r
          → (elim r as (λ x. Result CsiVolume × State) [
            | err e ↦ (err e, s)
            | ok spec ↦
                respond S d req spec.size (find_or_create S d spec (get_volume_by_name req.name s))
          ])
            ≡ (ok v, after)
          → IsCreated s v after
      go (err e) c x = absurd (no v (ap (λ y. y.0) x))
      go (ok spec) c x =
          answered spec c (find_or_create S d spec (get_volume_by_name req.name s)).0
            (find_or_create S d spec (get_volume_by_name req.name s)).1 refl x
