-- ===== src/Tests/Handlers.antt =====
-- The CSI handlers, over the service that keeps its volumes in memory and over one DSM.
use mathlib.Core.List.{Perm}
use reference_guides.Base.{
  ℕ, pos, codes, ◌==◌, to_lower, ◌≡◌, true, ◌≢◌, refl, false, sort, keep, map, none, some, [], ◌∷◌,
  ok, IsPolite, arith,
}
use reference_guides.Models.{
  K8sVolumeRespSpec, gen_lun_name, gen_share_name, volume_less, snapshot_less,
}
use reference_guides.Driver.{Driver}
use reference_guides.DsmService.{dsm_service}
use reference_guides.Controller.Types.{
  CsiVolume, get_size_by_capacity_range, is_volume_access_mode_support,
}
use reference_guides.Controller.Create.{
  CreateVolumeRequest, sessions_of, multi_session_of, source_of, protocol_of, is_thin,
  lun_description_of, spec_of, check_request, is_other_capacity, volume_of, respond, find_or_create,
  handle_create_volume,
}
use reference_guides.Controller.Create.Checked.{IsChecked, check_request-IsChecked}
use reference_guides.Controller.Create.Answered.{IsCreated, handle_create_volume-IsCreated}
use reference_guides.Controller.Create.Errors.{handle_create_volume-IsPolite}
use reference_guides.Controller.Listing.{volume_entry, snapshot_entry, is_wanted, snapshots_from}
use reference_guides.Controller.Paging.Gather.{gather}
use reference_guides.Controller.Paging.{list_page}
use reference_guides.Controller.Paging.Stuck.{list_page_sticks}
use reference_guides.Controller.Listing.Complete.{
  ask_volumes, ask_snapshots, list_volumes_complete, list_snapshots_complete,
}
use reference_guides.Tests.Fixture.{nas, backend, spec, volume}
use reference_guides.Tests.Memory.{memory, snap_a, snap_b, volume_for}

abbrev driver : Driver
driver = record {
  name = [];
  node_id = [];
  version = [];
  endpoint = [];
  cs_cap = [];
  v_cap = (record { mode = 1 }) ∷ (record { mode = 5 }) ∷ [];
  ns_cap = [];
}

abbrev request : CreateVolumeRequest
request = record {
  name = codes "a";
  capacity_range = some (record { required_bytes = pos 2147483648; limit_bytes = pos 0 });
  volume_capabilities = some (1 ∷ []);
  content_source = none;
  parameters = [];
}

accepted : check_request driver request ≡ ok spec
unfolding check_request get_size_by_capacity_range ◌==◌ multi_session_of sessions_of
    is_volume_access_mode_support source_of protocol_of to_lower spec_of gen_lun_name
    lun_description_of gen_share_name is_thin
accepted = refl

check_request-IsChecked_example : IsChecked driver request spec
check_request-IsChecked_example = check_request-IsChecked driver request spec accepted

abbrev answer : CsiVolume
answer = record {
  volume_id = codes "u";
  capacity_bytes = pos 2147483648;
  content_source = none;
  volume_context =
      (codes "dsm", codes "10.0.0.7")
      ∷ (codes "protocol", codes "iscsi")
      ∷ (codes "source", [])
      ∷ (codes "formatOptions", [])
      ∷ [];
}

made :
    handle_create_volume memory driver request [] ≡ (ok answer, (codes "a", volume_for spec) ∷ [])
unfolding handle_create_volume check_request get_size_by_capacity_range ◌==◌ multi_session_of
    sessions_of is_volume_access_mode_support source_of protocol_of to_lower respond find_or_create
    is_other_capacity spec_of volume_of
made = refl

handle_create_volume-IsCreated_example :
    IsCreated memory driver request [] answer ((codes "a", volume_for spec) ∷ [])
handle_create_volume-IsCreated_example =
    handle_create_volume-IsCreated memory driver request [] answer
      ((codes "a", volume_for spec) ∷ []) made

handle_create_volume-IsPolite_example :
    IsPolite (handle_create_volume (dsm_service backend (nas ∷ [])) driver request false).0
handle_create_volume-IsPolite_example =
    handle_create_volume-IsPolite backend (nas ∷ []) driver request false

different : (a b : ℕ) → a ≢ b → (a ∷ []) ≢ (b ∷ [])
different a b h e = ground (arith, h, e)

abbrev other : K8sVolumeRespSpec
other = record volume { volume_id = codes "t" }

list_volumes_complete_example :
    (gather (ask_volumes memory (pos 1) ((codes "a", volume) ∷ (codes "b", other) ∷ [])) 3 []
      ≡ some (map volume_entry (sort volume_less (volume ∷ other ∷ []))))
    × Perm (sort volume_less (volume ∷ other ∷ [])) (volume ∷ other ∷ [])
list_volumes_complete_example =
    list_volumes_complete memory (pos 1) ((codes "a", volume) ∷ (codes "b", other) ∷ [])
      (volume ∷ other ∷ []) (omega arith) refl ((different b'u' b't' (omega arith), tt), (tt, tt))
      ((λ e. cc), ((λ e. cc), tt))

snapshots : (snapshots_from memory [] []).0 ≡ snap_a ∷ snap_b ∷ []
unfolding snapshots_from ◌==◌
snapshots = refl

list_snapshots_complete_example :
    gather (ask_snapshots memory [] (codes "y") (pos 1) []) 3 []
    ≡ some (
        map snapshot_entry
          (keep (is_wanted (codes "y")) (sort snapshot_less (snap_a ∷ snap_b ∷ []))))
list_snapshots_complete_example =
    list_snapshots_complete memory [] (codes "y") (pos 1) [] (snap_a ∷ snap_b ∷ []) (omega arith)
      snapshots ((different b'x' b'y' (omega arith), tt), (tt, tt)) ((λ e. cc), ((λ e. cc), tt))

-- One LUN that is mapped to two targets is listed twice.
list_page_sticks_example :
    list_page
      (λ (v : K8sVolumeRespSpec). v.volume_id)
      (λ v. true)
      (pos 1)
      volume.volume_id
      (volume ∷ volume ∷ [])
    ≡ ok (volume ∷ [], volume.volume_id)
list_page_sticks_example =
    list_page_sticks (λ (v : K8sVolumeRespSpec). v.volume_id) (λ v. true) volume volume [] refl refl
      refl
