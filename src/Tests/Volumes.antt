-- ===== src/Tests/Volumes.antt =====
-- The service of pkg/dsm/service over one DSM with one LUN.
use reference_guides.Base.{
  ◌+◌, pos, ◌≤ℤ◌, ◌<ℤ◌, codes, ◌==◌, eq_refl, has_prefix, parse_int, int64, ◌≡◌, refl, ◌⊎◌, inl,
  All, true, false, none, some, [], ◌∷◌, ok, arith,
}
use reference_guides.Utils.{unit_mb}
use reference_guides.Models.{K8sVolumeRespSpec}
use reference_guides.Service.Registry.{get_dsm}
use reference_guides.Service.Convert.{dsm_lun_to_k8s_volume}
use reference_guides.Service.Location.{
  first_available, is_passed_over, get_lun_type_by_input_params,
}
use reference_guides.Service.Iscsi
use reference_guides.Service.Listing.{list_volumes, get_volume}
use reference_guides.Service.Listing
use reference_guides.Service.Listing.Ownership.{IsOwned, list_volumes-IsOwned, get_volume-IsOwned}
use reference_guides.Service.Volumes.{
  create_volume, create_on_first, create_on, create_volume_by_dsm, delete_lun, delete_target,
  delete_on, delete_found, delete_volume, expand_volume, expand_found, expand_on,
}
use reference_guides.Service.Volumes.Creation.{IsAnswer}
use reference_guides.Service.Volumes.Placement.{IsPlaced, create_on_first-IsPlaced}
use reference_guides.Service.Volumes.Answers.{create_volume-IsAnswer}
use reference_guides.Service.Volumes.Deletion.{
  IsGone, delete_lun-IsGone, IsDeleted, delete_volume-IsDeleted,
}
use reference_guides.Service.Volumes.Expansion.{
  IsExpansion, expand_volume-IsExpansion, expand_volume_size,
}
use reference_guides.Tests.Fixture.{nas, backend, spec, volume}

create_volume-IsAnswer_example : IsAnswer (create_volume backend (nas ∷ []) spec false).0
create_volume-IsAnswer_example = create_volume-IsAnswer backend (nas ∷ []) spec false supported
  where
    supported : ((codes "iscsi" == codes "iscsi") ≡ true) ⊎ ((codes "iscsi" == codes "smb") ≡ true)
    supported = inl (eq_refl (codes "iscsi"))

created : create_on_first backend (nas ∷ []) spec false ≡ (ok (some volume), true)
unfolding create_on_first ◌==◌ create_on create_volume_by_dsm Iscsi.choose_location
    Iscsi.get_first_available_volume first_available parse_int is_passed_over Iscsi.create_lun_at
    get_lun_type_by_input_params Iscsi.map_lun Iscsi.create_mapping_target Iscsi.set_sessions
    dsm_lun_to_k8s_volume int64
created = refl

create_on_first-IsPlaced_example : IsPlaced backend (nas ∷ []) spec false (some volume) true
create_on_first-IsPlaced_example =
    create_on_first-IsPlaced backend (nas ∷ []) spec false (some volume) true
      (inl (eq_refl (codes "iscsi"))) created

list_volumes-IsOwned_example : All (IsOwned (nas ∷ [])) (list_volumes backend (nas ∷ []) true).0
list_volumes-IsOwned_example = list_volumes-IsOwned backend (nas ∷ []) true

found : (get_volume backend (nas ∷ []) (codes "u") true).0 ≡ some volume
unfolding get_volume list_volumes Listing.list_iscsi_volumes ◌==◌ Listing.dsm_iscsi_volumes
    Listing.target_volumes Listing.mapped_volumes Listing.mapped_volume has_prefix
    dsm_lun_to_k8s_volume int64
found = refl

get_volume-IsOwned_example : IsOwned (nas ∷ []) volume × (volume.volume_id ≡ codes "u")
get_volume-IsOwned_example = get_volume-IsOwned backend (nas ∷ []) (codes "u") true volume found

deleted : (delete_lun backend nas volume true).0 ≡ ok tt
unfolding delete_lun delete_target
deleted = refl

delete_lun-IsGone_example : IsGone backend nas volume true
delete_lun-IsGone_example = delete_lun-IsGone backend nas volume true deleted

removed : delete_volume backend (nas ∷ []) (codes "u") true ≡ (ok tt, false)
unfolding delete_volume delete_found delete_on delete_lun delete_target get_volume list_volumes
    Listing.list_iscsi_volumes ◌==◌ Listing.dsm_iscsi_volumes Listing.target_volumes
    Listing.mapped_volumes Listing.mapped_volume has_prefix dsm_lun_to_k8s_volume int64 get_dsm
removed = refl

delete_volume-IsDeleted_example :
    (((get_volume backend (nas ∷ []) (codes "u") true).0 ≡ none)
      × ((get_volume backend (nas ∷ []) (codes "u") true).1 ≡ false))
    ⊎ IsDeleted backend (nas ∷ []) (codes "u") true
delete_volume-IsDeleted_example =
    delete_volume-IsDeleted backend (nas ∷ []) (codes "u") true false removed

abbrev larger : K8sVolumeRespSpec
larger = record volume { size_in_bytes = pos 3000000000 }

expanded : (expand_volume backend (nas ∷ []) (codes "u") (pos 3000000000) true).0 ≡ ok larger
unfolding expand_volume expand_found expand_on get_volume list_volumes Listing.list_iscsi_volumes
    ◌==◌ Listing.dsm_iscsi_volumes Listing.target_volumes Listing.mapped_volumes
    Listing.mapped_volume has_prefix dsm_lun_to_k8s_volume int64 get_dsm
expanded = refl

expand_volume-IsExpansion_example :
    IsExpansion backend (nas ∷ []) (codes "u") (pos 3000000000) true larger
expand_volume-IsExpansion_example =
    expand_volume-IsExpansion backend (nas ∷ []) (codes "u") (pos 3000000000) true larger expanded

expand_volume_size_example :
    (pos 3000000000 ≤ℤ larger.size_in_bytes) × (larger.size_in_bytes <ℤ pos (3000000000 + unit_mb))
expand_volume_size_example =
    expand_volume_size backend (nas ∷ []) (codes "u") 3000000000 true larger (omega arith) expanded
