-- ===== src/WebApi/Errors.antt =====
-- The error codes of the web API: errCodeMapping (pkg/dsm/webapi/iscsi.go) and shareErrCodeMapping
-- (pkg/dsm/webapi/share.go).
pub mod Meaning
use reference_guides.Base.{
  ℤ, pos, ltb_ℤ, eqb_ℤ, Option, none, some, Error, Result, ok, err, if◌then◌else◌,
  out_of_free_space_error, already_exist_error, bad_parameters_error, no_such_lun_error,
  lun_reach_max_count_error, target_reach_max_count_error, no_such_snapshot_error,
  bad_lun_type_error, snapshot_reach_max_count_error, iscsi_default_error, no_such_share_error,
  share_reach_max_count_error, share_system_busy_error, share_default_error,
}

unfoldable pub err_code_mapping : ℤ → Error → Error
err_code_mapping err_code ori_err =
    if eqb_ℤ err_code (pos 18990002)
    then out_of_free_space_error
    else if eqb_ℤ err_code (pos 18990531)
    then no_such_lun_error
    else if eqb_ℤ err_code (pos 18990538)
    then already_exist_error
    else if eqb_ℤ err_code (pos 18990541)
    then lun_reach_max_count_error
    else if eqb_ℤ err_code (pos 18990542)
    then target_reach_max_count_error
    else if eqb_ℤ err_code (pos 18990744)
    then already_exist_error
    else if eqb_ℤ err_code (pos 18990532)
    then no_such_snapshot_error
    else if eqb_ℤ err_code (pos 18990500)
    then bad_lun_type_error
    else if eqb_ℤ err_code (pos 18990543)
    then snapshot_reach_max_count_error
    else if ltb_ℤ (pos 18990000) err_code
    then iscsi_default_error err_code
    else ori_err

-- The original error may be nil here, and the result too.
unfoldable pub share_err_code_mapping : ℤ → Option Error → Option Error
share_err_code_mapping err_code ori_err =
    if eqb_ℤ err_code (pos 402)
    then some no_such_share_error
    else if eqb_ℤ err_code (pos 403)
    then some bad_parameters_error
    else if eqb_ℤ err_code (pos 3301)
    then some already_exist_error
    else if eqb_ℤ err_code (pos 3309)
    then some share_reach_max_count_error
    else if eqb_ℤ err_code (pos 3328)
    then some share_system_busy_error
    else if ltb_ℤ (pos 3299) err_code
    then some (share_default_error err_code)
    else ori_err
