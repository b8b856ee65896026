-- ===== src/Tests/Small.antt =====
-- Names, sizes, locations and error codes at concrete data.
use reference_guides.Base.{
  ℕ, ◌+◌, ◌≤◌, pos, ◌≤ℤ◌, ◌<ℤ◌, codes, ◌≡◌, refl, ◌↔◌, ◌⊎◌, true, false, All, ◌≢◌, length, take,
  has_prefix, some, none, ok, [], ◌∷◌, arith, errorf, already_exist_error, no_such_lun_error,
  parse_int, ◌==◌,
}
use reference_guides.Utils.{unit_mb, mb_to_bytes, bytes_to_mb, bytes_to_mb_ceil}
use reference_guides.Utils.Sizes.{rounded_up}
use reference_guides.Models.{gen_share_name, gen_lun_name, max_share_len, max_iqn_len, share_prefix}
use reference_guides.Models.Names.{gen_share_name_fits, names_collide}
use reference_guides.WebApi.Errors.{err_code_mapping}
use reference_guides.WebApi.Errors.Meaning.{err_code_mapping_names}
use reference_guides.WebApi.Network.{Network, HttpReply, nothing}
use reference_guides.WebApi.Session.{Web, send_request, entry_cgi}
use reference_guides.WebApi.Session.Retry.{Logged, send_request_bounds}
use reference_guides.Service.Location.{first_available, is_passed_over, gen_target_iqn}
use reference_guides.Service.Location.Choice.{
  IsChosen, first_available-IsChosen, gen_target_iqn_fits,
}
use reference_guides.Controller.Types.{CapacityRange, get_size_by_capacity_range}
use reference_guides.Controller.Create.Checked.{IsSize, get_size_by_capacity_range_iff}
use reference_guides.Tests.Fixture.{nas, crashed, healthy}

rounded_up_example :
    (pos 1500000000 ≤ℤ mb_to_bytes (bytes_to_mb_ceil (pos 1500000000)))
    × (mb_to_bytes (bytes_to_mb_ceil (pos 1500000000)) <ℤ pos (1500000000 + unit_mb))
    × (bytes_to_mb (mb_to_bytes (bytes_to_mb_ceil (pos 1500000000)))
        ≡ bytes_to_mb_ceil (pos 1500000000))
rounded_up_example = rounded_up 1500000000 (omega arith)

gen_share_name_fits_example :
    (length (gen_share_name (codes "pvc-0b1f4c5e-6a7d-4f0e")) ≤ max_share_len)
    × (has_prefix (gen_share_name (codes "pvc-0b1f4c5e-6a7d-4f0e")) share_prefix ≡ true)
gen_share_name_fits_example = gen_share_name_fits (codes "pvc-0b1f4c5e-6a7d-4f0e")

names_collide_example :
    ((gen_share_name (codes "a") ≡ gen_share_name (codes "b"))
      ↔ (take 24 (codes "a") ≡ take 24 (codes "b")))
    × ((gen_lun_name (codes "a") ≡ gen_lun_name (codes "b")) ↔ (codes "a" ≡ codes "b"))
names_collide_example = names_collide (codes "a") (codes "b")

err_code_mapping_names_example :
    ((err_code_mapping (pos 18990538) errorf ≡ already_exist_error)
      ↔ ((pos 18990538 ≡ pos 18990538) ⊎ (pos 18990538 ≡ pos 18990744)))
    × ((err_code_mapping (pos 18990538) errorf ≡ no_such_lun_error) ↔ (pos 18990538 ≡ pos 18990531))
err_code_mapping_names_example = err_code_mapping_names (pos 18990538)

gen_target_iqn_fits_example :
    (length (gen_target_iqn (codes "nas_1") (codes "pvc+7")) ≤ max_iqn_len)
    × All (λ c. c ≢ b'_') (gen_target_iqn (codes "nas_1") (codes "pvc+7"))
    × All (λ c. c ≢ b'+') (gen_target_iqn (codes "nas_1") (codes "pvc+7"))
gen_target_iqn_fits_example = gen_target_iqn_fits (codes "nas_1") (codes "pvc+7")

chosen_healthy : first_available (pos 2147483648) (crashed ∷ healthy ∷ []) ≡ ok healthy
unfolding first_available is_passed_over parse_int ◌==◌
chosen_healthy = refl

first_available-IsChosen_example : IsChosen (pos 2147483648) (crashed ∷ healthy ∷ []) healthy
first_available-IsChosen_example =
    first_available-IsChosen (pos 2147483648) (crashed ∷ healthy ∷ []) healthy chosen_healthy

abbrev range : CapacityRange
range = record { required_bytes = pos 2147483648; limit_bytes = pos 3000000000 }

get_size_by_capacity_range_iff_example :
    (get_size_by_capacity_range (some range) ≡ ok (pos 2147483648))
    ↔ IsSize (some range) (pos 2147483648)
get_size_by_capacity_range_iff_example =
    get_size_by_capacity_range_iff (some range) (pos 2147483648)

-- A network that is never reached.
abbrev pub silent : Network
silent = record {
  State = ℕ;
  Json = Unit;
  unmarshal = λ t j. none;
  exchange = λ q s. (HttpReply.unreachable, s + 1);
  look_up_ip = λ name s. ([], s);
  dial = λ ip port s. (false, s);
}

abbrev pub start : Web (Logged silent)
start = record { net = (0, []); sid = λ ip. [] }

send_request_bounds_example :
    (length start.net.1 + 1
      ≤ length (send_request (Logged silent) nothing [] entry_cgi nas start).1.net.1)
    × (length (send_request (Logged silent) nothing [] entry_cgi nas start).1.net.1
        ≤ length start.net.1 + 3)
send_request_bounds_example = send_request_bounds silent nothing [] entry_cgi nas start
