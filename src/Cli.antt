-- ===== src/Cli.antt =====
-- synocli/cmd/dsm.go: the DSMs that the command line tool works on. The file of the clients is read outside.
pub mod Shares
pub mod Lists
use reference_guides.Base.{
  ℕ, suc, ℤ, pos, negsuc, ltb_ℤ, eqb_ℤ, GoString, length, Bool, ◌||◌, ◌&&◌, not, List, [], ◌∷◌,
  Option, none, some, Error, errorf, index_out_of_range, ◌>>=◌, Result, ok, err, Exec,
  if◌then◌else◌,
}
use reference_guides.WebApi.Session.{Dsm, Web, login, logout}
use reference_guides.WebApi.Network.{Network}

-- The clients whose place is the id, or all for the id -1; the place of the first is `i`.
unfoldable pub chosen : ℤ → ℕ → List Dsm → List Dsm
chosen id i [] = []
chosen id i (client ∷ clients) =
    let rest = chosen id (suc i) clients in
    if not (eqb_ℤ id (negsuc 0)) && not (eqb_ℤ id (pos i)) then rest else client ∷ rest

abbrev or_no_client : List Dsm → Result (List Dsm)
or_no_client [] = err errorf
or_no_client (dsm ∷ dsms) = ok (dsm ∷ dsms)

-- ListDsms
unfoldable pub list_dsms : Result (List Dsm) → ℤ → Result (List Dsm)
unfolding chosen
list_dsms (err e) id = err errorf
list_dsms (ok clients) id =
    if ltb_ℤ id (negsuc 0) || not (ltb_ℤ id (pos (length clients)))
    then err errorf
    else or_no_client (chosen id 0 clients)

-- The port that `dsm login` uses.
unfoldable pub login_port_of : Bool → ℤ → ℤ
login_port_of https port =
    if eqb_ℤ port (negsuc 0) then (if https then pos 5001 else pos 5000) else port

module _ (N : Network) where
  abbrev logged_in : Dsm → Option Error × Web N → Result Dsm × Web N
  logged_in dsm (none, s) = (ok dsm, s)
  logged_in dsm (some e, s) = (err errorf, s)

  -- The first of the DSMs, `dsms[0]`.
  abbrev with_first : Result (List Dsm) → Exec (Web N) Dsm
  with_first (err e) s = (err errorf, s)
  with_first (ok []) s = (err index_out_of_range, s)
  with_first (ok (dsm ∷ dsms)) s = logged_in dsm (login N dsm s)

  -- LoginDsmForTest
  unfoldable pub login_dsm_for_test : Result (List Dsm) → ℤ → Exec (Web N) Dsm
  unfolding list_dsms
  login_dsm_for_test clients id s = with_first (list_dsms clients id) s

  -- What every command does: a login, and at the end a logout, which os.Exit after an error leaves out.
  unfoldable pub with_dsm :
      {A : Type 0} → Result (List Dsm) → ℤ → (Dsm → Exec (Web N) A) → Exec (Web N) A
  unfolding login_dsm_for_test
  with_dsm clients id body = do
    dsm ← login_dsm_for_test clients id
    a ← body dsm
    λ s. (ok a, (logout N dsm s).1)

  -- cmdDsmLogin: only a failure is told.
  unfoldable pub cmd_dsm_login : GoString → GoString → GoString → Bool → ℤ → Exec (Web N) Dsm
  unfolding login_port_of
  cmd_dsm_login ip username password https port s =
      let dsm : Dsm = record {
        ip = ip;
        port = login_port_of https port;
        username = username;
        password = password;
        https = https;
      } in
      logged_in dsm (login N dsm s)
