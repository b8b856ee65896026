-- ===== src/Controller/Create.antt =====
-- pkg/driver/controllerserver.go: CreateVolume, DeleteVolume, ControllerExpandVolume and
-- ValidateVolumeCapabilities.
pub mod Asked
pub mod Checked
pub mod Answered
pub mod Errors
pub mod Restored
use reference_guides.Base.{
  ℕ, eqb, ℤ, ltb_ℤ, eqb_ℤ, GoString, codes, ◌==◌, ◌/=◌, to_lower, Bool, true, false, ◌&&◌, ◌||◌,
  not, Option, none, some, List, [], ◌∷◌, ◌++◌, Error, nil_dereference, status, invalid_argument,
  not_found, already_exists, internal, Result, ok, err, Exec, pure, fail, or_fail, lift, ◌>>=◌,
  ◌>>◌, if◌then◌else◌,
}
use reference_guides.Utils.{
  protocol_smb, protocol_iscsi, protocol_default, string_to_boolean, bytes_to_mb, bytes_to_mb_ceil,
}
use reference_guides.Models.{
  CreateK8sVolumeSpec, K8sVolumeRespSpec, gen_lun_name, gen_share_name, target_prefix,
}
use reference_guides.DsmService.{DsmService}
use reference_guides.Driver.{
  Driver, single_node_writer, multi_node_multi_writer, is_protocol_support,
}
use reference_guides.Controller.Types.{
  StringMap, find_key, at_key, CapacityRange, ContentSource, from_snapshot, from_volume,
  other_source, CsiVolume, get_size_by_capacity_range, is_volume_access_mode_support,
}

-- `volume_capabilities` is the access modes of the capabilities, and none for a nil slice.
pub record CreateVolumeRequest : Type 0 where
  pub name : GoString
  pub capacity_range : Option CapacityRange
  pub volume_capabilities : Option (List ℕ)
  pub content_source : Option ContentSource
  pub parameters : StringMap

-- The loop over the capabilities: its value is multiSession.
unfoldable pub sessions_of : Driver → Bool → List ℕ → Result Bool
sessions_of d multi_session [] = ok multi_session
sessions_of d multi_session (mode ∷ modes) =
    let rest =
      sessions_of d
        (if eqb mode single_node_writer
          then false
          else if eqb mode multi_node_multi_writer
          then true
          else multi_session)
        modes in
    if is_volume_access_mode_support d mode then rest else err (status invalid_argument)

unfoldable pub multi_session_of : Driver → Option (List ℕ) → Result Bool
multi_session_of d none = err (status invalid_argument)
multi_session_of d (some modes) = sessions_of d false modes

-- The ids of the source snapshot and of the source volume.
unfoldable pub source_of : Option ContentSource → Result (GoString × GoString)
source_of none = ok ([], [])
source_of (some (from_snapshot id)) = ok (id, [])
source_of (some (from_volume id)) = ok ([], id)
source_of (some other_source) = err (status invalid_argument)

unfoldable pub protocol_of : StringMap → Result GoString
protocol_of params =
    let protocol = to_lower (at_key params (codes "protocol")) in
    if protocol == []
    then ok protocol_default
    else if is_protocol_support protocol
    then ok protocol
    else err (status invalid_argument)

unfoldable pub is_thin : StringMap → Bool
is_thin params =
    let thin = at_key params (codes "thin_provisioning") in
    if thin == [] then true else string_to_boolean thin

unfoldable pub lun_description_of : StringMap → GoString
lun_description_of params = elim (find_key params (codes "csi.storage.k8s.io/pvc/name")) [
  | none ↦ []
  | some pvc_name ↦ at_key params (codes "csi.storage.k8s.io/pvc/namespace") ++ (b'/' ∷ pvc_name)
]

unfoldable pub spec_of :
    CreateVolumeRequest → ℤ → Bool → GoString × GoString → GoString → CreateK8sVolumeSpec
spec_of req size multi_session (src_snapshot_id, src_volume_id) protocol = record {
  dsm_ip = at_key req.parameters (codes "dsm");
  k8s_volume_name = req.name;
  lun_name = gen_lun_name req.name;
  lun_description = lun_description_of req.parameters;
  share_name = gen_share_name req.name;
  location = at_key req.parameters (codes "location");
  size = size;
  lun_type = at_key req.parameters (codes "type");
  thin_provisioning = is_thin req.parameters;
  target_name = target_prefix ++ (b'-' ∷ req.name);
  multiple_session = multi_session;
  source_snapshot_id = src_snapshot_id;
  source_volume_id = src_volume_id;
  protocol = protocol;
}

-- The part of CreateVolume before the service is called: the spec, or the first error.
unfoldable pub check_request : Driver → CreateVolumeRequest → Result CreateK8sVolumeSpec
check_request d req = elim (get_size_by_capacity_range req.capacity_range) [
  | err e ↦ err e
  | ok size ↦
      if req.name == []
      then err (status invalid_argument)
      else elim (multi_session_of d req.volume_capabilities) [
        | err e ↦ err e
        | ok multi_session ↦ elim (source_of req.content_source) [
          | err e ↦ err e
          | ok source ↦ elim (protocol_of req.parameters) [
            | err e ↦ err e
            | ok protocol ↦ ok (spec_of req size multi_session source protocol)
          ]
        ]
      ]
]

-- The test for a volume whose capacity is another than the one asked for.
unfoldable pub is_other_capacity : K8sVolumeRespSpec → ℤ → Bool
is_other_capacity v size =
    (v.protocol == protocol_iscsi && not (eqb_ℤ v.size_in_bytes size))
    || (v.protocol == protocol_smb
        && not (eqb_ℤ (bytes_to_mb v.size_in_bytes) (bytes_to_mb_ceil size)))

unfoldable pub volume_of : CreateVolumeRequest → K8sVolumeRespSpec → CsiVolume
volume_of req v = record {
  volume_id = v.volume_id;
  capacity_bytes = v.size_in_bytes;
  content_source = req.content_source;
  volume_context =
      (codes "dsm", v.dsm_ip)
      ∷ (codes "protocol", v.protocol)
      ∷ (codes "source", v.source)
      ∷ (codes "formatOptions", at_key req.parameters (codes "formatOptions"))
      ∷ [];
}

-- ValidateVolumeCapabilities: every mode is supported.
unfoldable pub all_supported : Driver → List ℕ → Bool
all_supported d [] = true
all_supported d (mode ∷ modes) = is_volume_access_mode_support d mode && all_supported d modes

module _ (S : DsmService) (d : Driver) where
  open S use {State, create_volume, delete_volume, get_volume, get_volume_by_name, expand_volume}

  -- A nil volume from the service is dereferenced.
  unfoldable pub respond :
      CreateVolumeRequest → ℤ → Result (Option K8sVolumeRespSpec) × State → Result CsiVolume × State
  respond req size (err e, s) = (err e, s)
  respond req size (ok none, s) = (err nil_dereference, s)
  respond req size (ok (some v), s) =
      if is_other_capacity v size
      then (err (status already_exists), s)
      else (ok (volume_of req v), s)

  -- A volume of that name is taken as it is; otherwise one is made.
  unfoldable pub find_or_create :
      CreateK8sVolumeSpec
      → Option K8sVolumeRespSpec × State
      → Result (Option K8sVolumeRespSpec) × State
  find_or_create spec (some v, s) = (ok (some v), s)
  find_or_create spec (none, s) = create_volume spec s

  -- CreateVolume
  unfoldable pub handle_create_volume : CreateVolumeRequest → Exec State CsiVolume
  handle_create_volume req s = elim (check_request d req) [
    | err e ↦ (err e, s)
    | ok spec ↦ respond req spec.size (find_or_create spec (get_volume_by_name req.name s))
  ]

  -- DeleteVolume
  unfoldable pub handle_delete_volume : GoString → Exec State Unit
  handle_delete_volume volume_id =
      if volume_id == []
      then fail (status invalid_argument)
      else or_fail (status internal) (delete_volume volume_id)

  -- ControllerExpandVolume: the new capacity, and whether the node has to expand the file system.
  unfoldable pub handle_expand_volume : GoString → Option CapacityRange → Exec State (ℤ × Bool)
  handle_expand_volume volume_id none = fail (status invalid_argument)
  handle_expand_volume volume_id (some range) =
      if volume_id == [] then fail (status invalid_argument) else (do
        size ← or_fail (status invalid_argument) (lift (get_size_by_capacity_range (some range)))
        v ← expand_volume volume_id size
        pure (v.size_in_bytes, v.protocol == protocol_iscsi))

  unfoldable pub validated : List ℕ → Option K8sVolumeRespSpec × State → Result Unit × State
  validated modes (none, s) = (err (status not_found), s)
  validated modes (some v, s) =
      if all_supported d modes then (ok tt, s) else (err (status not_found), s)

  -- ValidateVolumeCapabilities
  unfoldable pub handle_validate_volume_capabilities : GoString → Option (List ℕ) → Exec State Unit
  handle_validate_volume_capabilities volume_id none s = (err (status invalid_argument), s)
  handle_validate_volume_capabilities volume_id (some modes) s =
      if volume_id == []
      then (err (status invalid_argument), s)
      else validated modes (get_volume volume_id s)
