-- ===== src/WebApi/Session/Retry.antt =====
-- pkg/dsm/webapi/dsmwebapi.go: how often a request is sent.
use reference_guides.Base.{
  ℕ, ◌+◌, ◌≤◌, GoString, ◌≡◌, ◌&&◌, Option, none, some, List, ◌∷◌, Error, arith, length, ◌∙◌,
  Bool-cases, inl, inr,
}
use reference_guides.WebApi.Network.{Params, Template, login_resp, Query, Network}
use reference_guides.WebApi.Session.{
  Dsm, Response, Web, send_without_check, login, send_request, login_result, login_params, auth_cgi,
  repeat_after_login, check_session, is_error, is_session_code,
}

-- The network N that also writes down, newest first, what it was asked.
abbrev pub Logged : Network → Network
Logged N = record {
  State = N.State × List Query;
  Json = N.Json;
  unmarshal = N.unmarshal;
  exchange =
      λ q s. let (net, log) = s in let (reply, net') = N.exchange q net in (reply, (net', q ∷ log));
  look_up_ip =
      λ name s. let (net, log) = s in let (ips, net') = N.look_up_ip name net in (ips, (net', log));
  dial =
      λ ip port s. let (net, log) = s in let (up, net') = N.dial ip port net in (up, (net', log));
}

module _ (N : Network) where
  abbrev sent : Web (Logged N) → ℕ
  sent w = length w.net.1

  sent-send :
      (t : Template) (params : Params) (cgi_path : GoString) (dsm : Dsm) (w : Web (Logged N))
      → sent (send_without_check (Logged N) t params cgi_path dsm w).1 ≡ sent w + 1
  unfolding send_without_check
  sent-send t params cgi_path dsm w = omega arith

  sent-login_result :
      (dsm : Dsm) (resp : Response login_resp) (w : Web (Logged N))
      → sent (login_result (Logged N) dsm (resp, w)).1 ≡ sent w
  unfolding login_result
  sent-login_result dsm resp w = ground arith

  sent-login : (dsm : Dsm) (w : Web (Logged N)) → sent (login (Logged N) dsm w).1 ≡ sent w + 1
  unfolding login
  sent-login dsm w =
      let params = login_params (Logged N) dsm in
      let (resp, w') = send_without_check (Logged N) login_resp params auth_cgi dsm w in
      sent-login_result dsm resp w' ∙ sent-send login_resp params auth_cgi dsm w

  sent-repeat :
      (t : Template) (params : Params) (cgi_path : GoString) (dsm : Dsm) (e : Option Error)
      (w : Web (Logged N))
      → (sent w ≤ sent (repeat_after_login (Logged N) t params cgi_path dsm (e, w)).1)
        × (sent (repeat_after_login (Logged N) t params cgi_path dsm (e, w)).1 ≤ sent w + 1)
  unfolding repeat_after_login
  sent-repeat t params cgi_path dsm none w = omega (arith, sent-send t params cgi_path dsm w)
  sent-repeat t params cgi_path dsm (some e) w = omega arith

  sent-check :
      (t : Template) (params : Params) (cgi_path : GoString) (dsm : Dsm) (resp : Response t)
      (w : Web (Logged N))
      → (sent w ≤ sent (check_session (Logged N) t params cgi_path dsm (resp, w)).1)
        × (sent (check_session (Logged N) t params cgi_path dsm (resp, w)).1 ≤ sent w + 2)
  unfolding check_session
  sent-check t params cgi_path dsm resp w =
      elim (Bool-cases
        (is_error (Logged N) resp.error && is_session_code (Logged N) resp.error_code)) [
          | inl lost ↦
              let again =
                sent-repeat t params cgi_path dsm (login (Logged N) dsm w).0
                  (login (Logged N) dsm w).1 in
              rw lost (omega (arith, sent-login dsm w, again))
          | inr kept ↦ rw kept (omega arith)
        ]

  -- A request is one to three exchanges: the request, and at most one login and one repetition.
  pub send_request_bounds :
      (t : Template) (params : Params) (cgi_path : GoString) (dsm : Dsm) (w : Web (Logged N))
      → (sent w + 1 ≤ sent (send_request (Logged N) t params cgi_path dsm w).1)
        × (sent (send_request (Logged N) t params cgi_path dsm w).1 ≤ sent w + 3)
  unfolding send_request
  send_request_bounds t params cgi_path dsm w =
      let (resp, w') = send_without_check (Logged N) t params cgi_path dsm w in
      omega (arith, sent-send t params cgi_path dsm w, sent-check t params cgi_path dsm resp w')
