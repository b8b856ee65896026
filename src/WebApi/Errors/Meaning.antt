-- ===== src/WebApi/Errors/Meaning.antt =====
-- The error codes of the web API: which codes mean that a name is taken or that an object is gone.
use reference_guides.Base.{
  ℤ, pos, ◌≡◌, ◌⊎◌, ◌↔◌, arith, errorf, already_exist_error, no_such_lun_error,
}
use reference_guides.WebApi.Errors.{err_code_mapping}

-- With an original error that is only text, errCodeMapping reports a taken name for the two codes of a
-- duplicated LUN or target name and for no other, and a missing LUN for one code only.
pub err_code_mapping_names :
    (code : ℤ)
    → ((err_code_mapping code errorf ≡ already_exist_error)
        ↔ ((code ≡ pos 18990538) ⊎ (code ≡ pos 18990744)))
      × ((err_code_mapping code errorf ≡ no_such_lun_error) ↔ (code ≡ pos 18990531))
unfolding err_code_mapping
err_code_mapping_names code = ground arith
