-- ===== src/Service/Registry.antt =====
-- pkg/dsm/service/dsm.go: the map of DSMs that DsmService holds. The map is a list of its values, in the
-- order in which `range` visits them; the key of each is its address, under which AddDsm stores it.
pub mod Addresses
use reference_guides.Base.{
  ℕ, suc, zero, GoString, ◌==◌, ◌/=◌, Bool, ◌&&◌, find, length, Option, none, some, List, [], ◌∷◌,
  Error, errorf, Result, ok, err, Exec,
}
use reference_guides.WebApi.Session.{Dsm}
use reference_guides.Backend.{Backend}

abbrev pub Dsms : Type 0
Dsms = List Dsm

-- GetDsm
unfoldable pub get_dsm : Dsms → GoString → Option Dsm
get_dsm dsms ip = find (λ dsm. dsm.ip == ip) dsms

-- GetDsmsCount
unfoldable pub get_dsms_count : Dsms → ℕ
get_dsms_count dsms = length dsms

-- `if ip != "" && ip != dsm.Ip { continue }`
abbrev pub is_other : GoString → Dsm → Bool
is_other ip dsm = (ip /= []) && (ip /= dsm.ip)

module _ (B : Backend) where
  open B use {State, login, logout}

  abbrev pub added : Dsms → Dsm → Option Error × State → Result Dsms × State
  added dsms client (none, s) = (ok (client ∷ dsms), s)
  added dsms client (some e, s) = (err errorf, s)

  -- AddDsm: the fields of the ClientInfo are those of the new DSM. The result is the new map.
  unfoldable pub add_dsm : Dsms → Dsm → Exec State Dsms
  add_dsm dsms client s = elim (get_dsm dsms client.ip) [
    | some present ↦ (ok dsms, s)
    | none ↦ added dsms client (login client s)
  ]

  -- At most `n` attempts to log out.
  unfoldable pub logout_retry : ℕ → Dsm → State → State
  logout_retry zero dsm s = s
  logout_retry (suc n) dsm s =
      let again = logout_retry n dsm (logout dsm s).1 in
      elim (logout dsm s).0 [ none ↦ (logout dsm s).1 | some e ↦ again ]

  -- RemoveAllDsms
  unfoldable pub remove_all_dsms : Dsms → State → State
  remove_all_dsms [] s = s
  remove_all_dsms (dsm ∷ dsms) s = remove_all_dsms dsms (logout_retry 3 dsm s)
