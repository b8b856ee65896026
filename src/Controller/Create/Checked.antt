-- ===== src/Controller/Create/Checked.antt =====
-- pkg/driver/controllerserver.go: what CreateVolume has checked when it succeeds, and which errors it
-- gives.
use reference_guides.Base.{
  ℕ, ℤ, pos, ◌≤ℤ◌, GoString, ◌==◌, eq_iff, Bool, true, false, ◌⊎◌, inl, inr, ◌↔◌, Option, none,
  some, List, [], Code, status, Result, ok, err, ok-injective, ◌≡◌, ◌≢◌, false≢true, refl, sym, ap,
  ◌∙◌, subst, if◌then◌else◌, All, arith,
}
use reference_guides.Utils.{unit_gb}
use reference_guides.Models.{CreateK8sVolumeSpec}
use reference_guides.Driver.{Driver, single_node_writer}
use reference_guides.Service.Volumes.Creation.{IsSupported}
use reference_guides.Controller.Types.{CapacityRange, get_size_by_capacity_range}
use reference_guides.Controller.Create.{
  CreateVolumeRequest, sessions_of, multi_session_of, source_of, protocol_of, spec_of,
  check_request, all_supported,
}
use reference_guides.Controller.Create.Asked.{
  err_not_ok, LastMulti, all_supported_lem, sessions_of_iff, IsAsked, protocol_of-IsAsked,
  protocol_of-IsSupported,
}

-- The size that a range asks for: 1 GB without a range; else the required bytes, which are at least 1 GB
-- and at most the limit, where there is a limit.
abbrev pub IsSize : Option CapacityRange → ℤ → Type 0
IsSize none size = size ≡ pos unit_gb
IsSize (some range) size =
    (size ≡ range.required_bytes)
    × (pos unit_gb ≤ℤ size)
    × ((range.limit_bytes ≤ℤ pos 0) ⊎ (size ≤ℤ range.limit_bytes))

with_range :
    (limit required size : ℤ)
    → (get_size_by_capacity_range (some (record { required_bytes = required; limit_bytes = limit }))
        ≡ ok size)
      ↔ IsSize (some (record { required_bytes = required; limit_bytes = limit })) size
unfolding get_size_by_capacity_range
with_range limit required size = ground arith

-- getSizeByCapacityRange gives a size exactly where the range allows it.
pub get_size_by_capacity_range_iff :
    (range : Option CapacityRange) (size : ℤ)
    → (get_size_by_capacity_range range ≡ ok size) ↔ IsSize range size
unfolding get_size_by_capacity_range
get_size_by_capacity_range_iff none size =
    (λ e. sym (ok-injective (pos unit_gb) size e), λ e. ap ok (sym e))
get_size_by_capacity_range_iff (some range) size =
    with_range range.limit_bytes range.required_bytes size

ok_of :
    {A B : Type 0} (r : Result A) (k : A → Result B) (b : B)
    → (elim r as (λ x. Result B) [ err e ↦ err e | ok a ↦ k a ]) ≡ ok b
    → (a : A) × (r ≡ ok a) × (k a ≡ ok b)
ok_of (ok a) k b h = (a, refl, h)
ok_of (err e) k b h = absurd (err_not_ok b h)

-- The checks that are left in CreateVolume after that of the source, of the access modes, of the name.
abbrev pub after_source :
    CreateVolumeRequest → ℤ → Bool → GoString × GoString → Result CreateK8sVolumeSpec
after_source req size multi sources = elim (protocol_of req.parameters) [
  | err e ↦ err e
  | ok protocol ↦ ok (spec_of req size multi sources protocol)
]

abbrev pub after_modes : CreateVolumeRequest → ℤ → Bool → Result CreateK8sVolumeSpec
after_modes req size multi = elim (source_of req.content_source) [
  | err e ↦ err e
  | ok sources ↦ after_source req size multi sources
]

abbrev pub after_name : Driver → CreateVolumeRequest → ℤ → Result CreateK8sVolumeSpec
after_name d req size = elim (multi_session_of d req.volume_capabilities) [
  | err e ↦ err e
  | ok multi ↦ after_modes req size multi
]

-- What a request that passes the checks says.
pub record IsChecked (d : Driver) (req : CreateVolumeRequest) (spec : CreateK8sVolumeSpec)
    : Type 0 where
  pub sized : IsSize req.capacity_range spec.size
  pub named : req.name ≢ []
  pub modes : List ℕ
  pub capable : req.volume_capabilities ≡ some modes
  pub supported : all_supported d modes ≡ true
  pub sources : GoString × GoString
  pub sourced : source_of req.content_source ≡ ok sources
  pub protocol_checked : IsSupported spec.protocol
  pub asked : IsAsked req.parameters spec.protocol
  pub sessions : Bool
  pub several : (sessions ≡ true) ↔ LastMulti modes
  pub same : spec ≡ spec_of req spec.size sessions sources spec.protocol

module _ (d : Driver) (req : CreateVolumeRequest) (spec : CreateK8sVolumeSpec) where
  spec_accepted :
      (size : ℤ) (multi : Bool) (sources : GoString × GoString) (protocol : GoString)
      (modes : List ℕ)
      → get_size_by_capacity_range req.capacity_range ≡ ok size
      → req.name ≢ []
      → req.volume_capabilities ≡ some modes
      → sessions_of d false modes ≡ ok multi
      → source_of req.content_source ≡ ok sources
      → protocol_of req.parameters ≡ ok protocol
      → spec_of req size multi sources protocol ≡ spec
      → IsChecked d req spec
  unfolding spec_of
  spec_accepted size multi sources protocol modes a n c m o p same =
      subst (IsChecked d req) same (record {
        sized = (get_size_by_capacity_range_iff req.capacity_range size).0 a;
        named = n;
        modes = modes;
        capable = c;
        supported = all_supported_lem d modes false multi m;
        sources = sources;
        sourced = o;
        protocol_checked = protocol_of-IsSupported req.parameters protocol p;
        asked = protocol_of-IsAsked req.parameters protocol p;
        sessions = multi;
        several =
            let iff = sessions_of_iff d modes false multi m in
            (λ t. from_start (iff.0 t), λ last. iff.1 (inr last));
        same = refl;
      })
    where
      from_start : {P : Type 0} → ((false ≡ true) × All (λ m. m ≢ single_node_writer) modes) ⊎ P → P
      from_start (inl (f, rest)) = absurd (false≢true f)
      from_start (inr last) = last

  -- A request passes the checks of CreateVolume only with a size that its range allows, a name, access
  -- modes that are all supported, a source that is understood and a supported protocol; the protocol of
  -- the spec is the one that the parameters name, in lower case, or the default one where they name none.
  -- The spec is the one that spec_of makes of the request with this size, these sources and this
  -- protocol, with multiple sessions exactly where the access modes have one of several writers without
  -- one of a single writer after it.
  pub check_request-IsChecked : check_request d req ≡ ok spec → IsChecked d req spec
  unfolding check_request multi_session_of
  check_request-IsChecked h =
      let (size, a, h₁) =
        ok_of (get_size_by_capacity_range req.capacity_range)
          (λ size.
            if req.name == [] then err (status Code.invalid_argument) else after_name d req size)
          spec h in
      let (n, h₂) = past_name (req.name == []) refl h₁ in
      let (multi, m, h₃) =
        ok_of (multi_session_of d req.volume_capabilities) (λ multi. after_modes req size multi)
          spec h₂ in
      let (modes, c, m') = capabilities req.volume_capabilities multi m in
      let (sources, o, h₄) =
        ok_of (source_of req.content_source) (λ sources. after_source req size multi sources) spec
          h₃ in
      let (protocol, p, h₅) =
        ok_of (protocol_of req.parameters)
          (λ protocol. ok (spec_of req size multi sources protocol)) spec h₄ in
      spec_accepted size multi sources protocol modes a n c m' o p
        (ok-injective (spec_of req size multi sources protocol) spec h₅)
    where
      past_name :
          {r : Result CreateK8sVolumeSpec} (b : Bool)
          → (req.name == []) ≡ b
          → (if b then err (status Code.invalid_argument) else r) ≡ ok spec
          → (req.name ≢ []) × (r ≡ ok spec)
      past_name true e x = absurd (err_not_ok spec x)
      past_name false e x = (λ same. false≢true (sym e ∙ (eq_iff req.name []).1 same), x)

      capabilities :
          (caps : Option (List ℕ)) (multi : Bool)
          → multi_session_of d caps ≡ ok multi
          → (modes : List ℕ) × (caps ≡ some modes) × (sessions_of d false modes ≡ ok multi)
      capabilities none multi x = absurd (err_not_ok multi x)
      capabilities (some modes) multi x = (modes, refl, x)
