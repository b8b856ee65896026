-- ===== src/Controller/Create/Errors.antt =====
-- pkg/driver/controllerserver.go: the errors of CreateVolume over the service of pkg/dsm/service.
use reference_guides.Base.{
  ℕ, ℤ, ◌==◌, Bool, true, false, inl, inr, Bool-cases, Option, none, some, List, [], ◌∷◌, status,
  Result, ok, err, IsPolite, ◌≡◌, refl, if◌then◌else◌, Code,
}
use reference_guides.Models.{CreateK8sVolumeSpec, K8sVolumeRespSpec}
use reference_guides.Driver.{Driver}
use reference_guides.Backend.{Backend}
use reference_guides.DsmService.{DsmService, dsm_service}
use reference_guides.Service.Registry.{Dsms}
use reference_guides.Service.Volumes.Creation.{IsAnswer}
use reference_guides.Service.Volumes.Answers.{create_volume-IsAnswer}
use reference_guides.Controller.Types.{
  StringMap, CapacityRange, ContentSource, from_snapshot, from_volume, other_source, CsiVolume,
  get_size_by_capacity_range,
}
use reference_guides.Controller.Create.{
  CreateVolumeRequest, sessions_of, multi_session_of, source_of, protocol_of, spec_of,
  check_request, is_other_capacity, respond, find_or_create, handle_create_volume,
}
use reference_guides.Controller.Create.Checked.{
  IsChecked, after_name, after_modes, after_source, check_request-IsChecked,
}

-- A value, or a gRPC status.
record Courteous {A : Type 0} (r : Result A) : Type 0 where
  fair : IsPolite r

fair_ok : {A : Type 0} (a : A) → Courteous (ok a)
fair_ok a = record { fair = tt }

fair_status : {A : Type 0} (c : Code) → Courteous {A = A} (err (status c))
fair_status c = record { fair = tt }

fair_if :
    {A : Type 0} (b : Bool) (x y : Result A)
    → Courteous x
    → Courteous y
    → Courteous (if b then x else y)
fair_if true x y h k = h
fair_if false x y h k = k

fair_of :
    {A B : Type 0} (r : Result A) (k : A → Result B)
    → Courteous r
    → ((a : A) → Courteous (k a))
    → Courteous (elim r as (λ x. Result B) [ err e ↦ err e | ok a ↦ k a ])
fair_of (ok a) k h f = f a
fair_of (err e) k h f = record { fair = h.fair }

ruleset fairness = (fair_ok, fair_status, fair_if, fair_of)

size-Courteous : (range : Option CapacityRange) → Courteous (get_size_by_capacity_range range)
unfolding get_size_by_capacity_range
size-Courteous none = search fairness
size-Courteous (some range) = search fairness

sessions_of-Courteous :
    (d : Driver) (modes : List ℕ) (multi : Bool) → Courteous (sessions_of d multi modes)
unfolding sessions_of
sessions_of-Courteous d [] multi = search fairness
sessions_of-Courteous d (mode ∷ modes) multi = search (fairness, sessions_of-Courteous d modes)

multi_session_of-Courteous :
    (d : Driver) (caps : Option (List ℕ)) → Courteous (multi_session_of d caps)
unfolding multi_session_of
multi_session_of-Courteous d none = search fairness
multi_session_of-Courteous d (some modes) = sessions_of-Courteous d modes false

source_of-Courteous : (source : Option ContentSource) → Courteous (source_of source)
unfolding source_of
source_of-Courteous none = search fairness
source_of-Courteous (some (from_snapshot id)) = search fairness
source_of-Courteous (some (from_volume id)) = search fairness
source_of-Courteous (some other_source) = search fairness

protocol_of-Courteous : (params : StringMap) → Courteous (protocol_of params)
unfolding protocol_of
protocol_of-Courteous params = search fairness

check_request-Courteous : (d : Driver) (req : CreateVolumeRequest) → Courteous (check_request d req)
unfolding check_request
check_request-Courteous d req =
    fair_of (get_size_by_capacity_range req.capacity_range)
      (λ size. if req.name == [] then err (status Code.invalid_argument) else after_name d req size)
      (size-Courteous req.capacity_range)
      λ size.
        fair_if (req.name == []) (err (status Code.invalid_argument)) (after_name d req size)
          (fair_status Code.invalid_argument)
          (fair_of (multi_session_of d req.volume_capabilities)
            (λ multi. after_modes req size multi)
            (multi_session_of-Courteous d req.volume_capabilities)
            λ multi.
              fair_of (source_of req.content_source)
                (λ sources. after_source req size multi sources)
                (source_of-Courteous req.content_source)
                λ sources.
                  fair_of (protocol_of req.parameters)
                    (λ protocol. ok (spec_of req size multi sources protocol))
                    (protocol_of-Courteous req.parameters)
                    λ protocol. fair_ok (spec_of req size multi sources protocol))

module _ (B : Backend) (dsms : Dsms) (d : Driver) (req : CreateVolumeRequest) where
  open B use {State}

  abbrev service : DsmService
  service = dsm_service B dsms

  respond-IsPolite :
      (size : ℤ) (r : Result (Option K8sVolumeRespSpec)) (s : State)
      → IsAnswer r
      → IsPolite (respond service d req size (r, s)).0
  unfolding respond
  respond-IsPolite size (err e) s h = h
  respond-IsPolite size (ok none) s h = elim h [ ]
  respond-IsPolite size (ok (some v)) s h = elim (Bool-cases (is_other_capacity v size)) [
    | inl t ↦ rw t tt
    | inr f ↦ rw f tt
  ]

  found-IsAnswer :
      (spec : CreateK8sVolumeSpec) (o : Option K8sVolumeRespSpec) (s : State)
      → IsChecked d req spec
      → IsAnswer (find_or_create service d spec (o, s)).0
  unfolding find_or_create
  found-IsAnswer spec (some v) s h = tt
  found-IsAnswer spec none s h = create_volume-IsAnswer B dsms spec s h.protocol_checked

  -- Whatever the DSMs answer, the CreateVolume handler gives a volume or a gRPC status: it never
  -- dereferences a nil volume.
  pub handle_create_volume-IsPolite :
      (s : State) → IsPolite (handle_create_volume service d req s).0
  unfolding handle_create_volume
  handle_create_volume-IsPolite s = go (check_request d req) refl (check_request-Courteous d req)
    where
      found : CreateK8sVolumeSpec → Result (Option K8sVolumeRespSpec) × State
      found spec = find_or_create service d spec (service.get_volume_by_name req.name s)

      go :
          (r : Result CreateK8sVolumeSpec)
          → check_request d req ≡ r
          → Courteous r
          → IsPolite
              (elim r as (λ x. Result CsiVolume × State) [
                | err e ↦ (err e, s)
                | ok spec ↦ respond service d req spec.size (found spec)
              ]).0
      go (err e) c f = f.fair
      go (ok spec) c f = respond-IsPolite spec.size (found spec).0 (found spec).1 (
          found-IsAnswer spec (service.get_volume_by_name req.name s).0
            (service.get_volume_by_name req.name s).1 (check_request-IsChecked d req spec c))
