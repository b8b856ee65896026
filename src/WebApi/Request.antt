-- ===== src/WebApi/Request.antt =====
-- pkg/dsm/webapi/*.go: what the methods share, the three leading parameters and the handling of the
-- error beside a response.
use reference_guides.Base.{String, codes, ◌∷◌, none, some, Result, ok, err}
use reference_guides.WebApi.Network.{text, Params, Template, Content, Network}
use reference_guides.WebApi.Session.{Response, Web}
use reference_guides.WebApi.Errors.{err_code_mapping, share_err_code_mapping}

-- params.Add of "api", "method" and "version", before the other parameters.
unfoldable pub request : String → String → String → Params → Params
request api method version rest =
    (codes "api", text (codes api))
    ∷ (codes "method", text (codes method))
    ∷ (codes "version", text (codes version))
    ∷ rest

module _ (N : Network) {t : Template} where
  -- `if err != nil { return …, errCodeMapping(resp.ErrorCode, err) }`
  unfoldable pub iscsi_result : Response t × Web N → Result (Content t) × Web N
  iscsi_result (resp, w) = elim resp.error [
    | none ↦ (ok resp.data_, w)
    | some e ↦ (err (err_code_mapping resp.error_code e), w)
  ]

  -- The same with the error as it is.
  unfoldable pub plain_result : Response t × Web N → Result (Content t) × Web N
  plain_result (resp, w) = elim resp.error [ none ↦ (ok resp.data_, w) | some e ↦ (err e, w) ]

  -- `if err != nil { return …, shareErrCodeMapping(resp.ErrorCode, err) }`
  unfoldable pub share_result : Response t × Web N → Result (Content t) × Web N
  share_result (resp, w) = elim resp.error [
    | none ↦ (ok resp.data_, w)
    | some e ↦ elim (share_err_code_mapping resp.error_code (some e)) [
      | none ↦ (ok resp.data_, w)
      | some e' ↦ (err e', w)
    ]
  ]

  -- `return info, shareErrCodeMapping(resp.ErrorCode, err)`, where err may be nil.
  unfoldable pub share_mapped : Response t × Web N → Result (Content t) × Web N
  share_mapped (resp, w) = elim (share_err_code_mapping resp.error_code resp.error) [
    | none ↦ (ok resp.data_, w)
    | some e ↦ (err e, w)
  ]
