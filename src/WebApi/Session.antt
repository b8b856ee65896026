-- ===== src/WebApi/Session.antt =====
-- pkg/dsm/webapi/dsmwebapi.go: a request to a DSM, the repeated login, login and logout.
pub mod Retry
use reference_guides.Base.{
  ℤ, pos, eqb_ℤ, GoString, codes, ◌==◌, Bool, true, false, ◌||◌, ◌&&◌, Option, none, some, List, [],
  ◌∷◌, Error, errorf, if◌then◌else◌,
}
use reference_guides.WebApi.Network.{
  Value, text, Params, Template, login_resp, nothing, Content, empty, Query, Body, malformed,
  envelope, HttpReply, unreachable, answer, Network,
}

-- The fields of DSM that stay as they are. `Sid` changes and is kept in the state.
pub record Dsm : Type 0 where
  pub ip : GoString
  pub port : ℤ
  pub username : GoString
  pub password : GoString
  pub https : Bool

abbrev pub auth_cgi : GoString
auth_cgi = codes "webapi/auth.cgi"

abbrev pub entry_cgi : GoString
entry_cgi = codes "webapi/entry.cgi"

-- Response and the error beside it.
pub record Response (t : Template) : Type 0 where
  pub error_code : ℤ
  pub data_ : Content t
  pub error : Option Error

abbrev pub failed : {t : Template} → ℤ → Response t
failed {t} code = record { error_code = code; data_ = empty t; error = some errorf }

module _ (N : Network) where
  open N use {State, Json, unmarshal, exchange}

  -- The network, and the field Sid of each DSM, by its address.
  pub record Web : Type 0 where
    pub net : State
    pub sid : GoString → GoString

  unfoldable pub set_sid : GoString → GoString → Web → Web
  set_sid ip value w = record w { sid = λ other. if other == ip then value else w.sid other }

  read_data : (t : Template) → ℤ → Option Json → Response t
  read_data t code none = record { error_code = code; data_ = empty t; error = none }
  read_data t code (some json) = elim (unmarshal t json) [
    | none ↦ failed (pos 0)
    | some content ↦ record { error_code = code; data_ = content; error = none }
  ]

  read_body : (t : Template) → Body Json → Response t
  read_body t malformed = failed (pos 0)
  read_body t (envelope success code content) =
      if success then read_data t code content else failed code

  read_reply : (t : Template) → HttpReply Json → Response t
  read_reply t unreachable = failed (pos 0)
  read_reply t (answer status_code body) =
      if eqb_ℤ status_code (pos 200) || eqb_ℤ status_code (pos 302)
      then read_body t body
      else failed (pos 0)

  -- Every caller passes "" as data, so the method is GET.
  unfoldable pub query : Dsm → Params → GoString → Web → Query
  query dsm params cgi_path w = record {
    https = dsm.https;
    host = dsm.ip;
    port = dsm.port;
    cgi_path = cgi_path;
    post = false;
    cookie = if w.sid dsm.ip == [] then none else some (w.sid dsm.ip);
    params = params;
  }

  -- sendRequestWithoutConnectionCheck
  unfoldable pub send_without_check :
      (t : Template) → Params → GoString → Dsm → Web → Response t × Web
  unfolding read_reply read_body read_data query
  send_without_check t params cgi_path dsm w =
      let (reply, net') = exchange (query dsm params cgi_path w) w.net in
      (read_reply t reply, record w { net = net' })

  login_params : Dsm → Params
  login_params dsm =
      (codes "api", text (codes "SYNO.API.Auth"))
      ∷ (codes "method", text (codes "login"))
      ∷ (codes "version", text (codes "3"))
      ∷ (codes "account", text dsm.username)
      ∷ (codes "passwd", text dsm.password)
      ∷ (codes "format", text (codes "sid"))
      ∷ []

  login_result : Dsm → Response login_resp × Web → Option Error × Web
  unfolding set_sid
  login_result dsm (resp, w) = elim resp.error [
    | some e ↦ (some errorf, w)
    | none ↦ (none, set_sid dsm.ip resp.data_ w)
  ]

  -- Login; the error is nil for `none`.
  unfoldable pub login : Dsm → Web → Option Error × Web
  unfolding login_result login_params
  login dsm w = login_result dsm (send_without_check login_resp (login_params dsm) auth_cgi dsm w)

  abbrev logout_params : Params
  logout_params =
      (codes "api", text (codes "SYNO.API.Auth"))
      ∷ (codes "method", text (codes "logout"))
      ∷ (codes "version", text (codes "1"))
      ∷ []

  logout_result : Dsm → Response nothing × Web → Option Error × Web
  unfolding set_sid
  logout_result dsm (resp, w) = elim resp.error [
    | some e ↦ (some e, w)
    | none ↦ (none, set_sid dsm.ip [] w)
  ]

  unfoldable pub logout : Dsm → Web → Option Error × Web
  unfolding logout_result
  logout dsm w = logout_result dsm (send_without_check nothing logout_params entry_cgi dsm w)

  -- No permission, session timeout, or an unknown session.
  abbrev pub is_session_code : ℤ → Bool
  is_session_code code = eqb_ℤ code (pos 105) || eqb_ℤ code (pos 106) || eqb_ℤ code (pos 119)

  abbrev pub is_error : Option Error → Bool
  is_error none = false
  is_error (some e) = true

  repeat_after_login :
      (t : Template) → Params → GoString → Dsm → Option Error × Web → Response t × Web
  repeat_after_login t params cgi_path dsm (some e, w) = (failed (pos 0), w)
  repeat_after_login t params cgi_path dsm (none, w) = send_without_check t params cgi_path dsm w

  check_session : (t : Template) → Params → GoString → Dsm → Response t × Web → Response t × Web
  unfolding repeat_after_login
  check_session t params cgi_path dsm (resp, w) =
      if is_error resp.error && is_session_code resp.error_code
      then repeat_after_login t params cgi_path dsm (login dsm w)
      else (resp, w)

  -- sendRequest
  unfoldable pub send_request : (t : Template) → Params → GoString → Dsm → Web → Response t × Web
  unfolding check_session
  send_request t params cgi_path dsm w =
      check_session t params cgi_path dsm (send_without_check t params cgi_path dsm w)
