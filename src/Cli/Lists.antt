-- ===== src/Cli/Lists.antt =====
-- synocli/cmd/share.go and lun.go: the lists over all chosen DSMs. The map from addresses to lists is an
-- association list; a second DSM of one address takes the place of the first.
use reference_guides.Base.{
  ℤ, pos, eqb_ℤ, itoa, GoString, codes, ◌==◌, List, [], ◌∷◌, ◌++◌, Option, none, some, Error,
  errorf, Result, ok, err, Exec, pure, lift, ◌>>=◌, ◌>>◌, if◌then◌else◌,
}
use reference_guides.WebApi.Types.{LunInfo, ShareInfo}
use reference_guides.WebApi.Network.{Network}
use reference_guides.WebApi.Session.{Dsm, Web, login, logout}
use reference_guides.WebApi.Iscsi.{lun_list}
use reference_guides.WebApi.Share.{share_list}
use reference_guides.Cli.{list_dsms}

-- Assignment to an element of the map.
unfoldable pub put : {A : Type 0} → GoString → A → List (GoString × A) → List (GoString × A)
put key a [] = (key, a) ∷ []
put key a ((k, b) ∷ more) =
    let rest = put key a more in if k == key then (k, a) ∷ more else (k, b) ∷ rest

-- lunTypeToString
unfoldable pub lun_type_to_string : ℤ → GoString
lun_type_to_string t =
    if eqb_ℤ t (pos 3)
    then codes "FILE"
    else if eqb_ℤ t (pos 15)
    then codes "ADV"
    else if eqb_ℤ t (pos 259)
    then codes "BLUN_THICK"
    else if eqb_ℤ t (pos 263)
    then codes "BLUN"
    else codes "NOT_SUPPORTED(" ++ (itoa t ++ codes ")")

module _ (N : Network) where
  abbrev logged : Option Error × Web N → Result Unit × Web N
  logged (none, w) = (ok tt, w)
  logged (some e, w) = (err errorf, w)

  abbrev left : Dsm → Exec (Web N) Unit
  left dsm w = (ok tt, (logout N dsm w).1)

  -- The loop over the DSMs, with the map that is filled.
  unfoldable pub on_each :
      {A : Type 0}
      → (Dsm → Exec (Web N) A)
      → List Dsm
      → List (GoString × A)
      → Exec (Web N) (List (GoString × A))
  unfolding put
  on_each ask [] found = pure found
  on_each ask (dsm ∷ dsms) found = do
    (λ w. logged (login N dsm w))
    infos ← ask dsm
    left dsm
    on_each ask dsms (put dsm.ip infos found)

  unfoldable pub cmd_share_list :
      Result (List Dsm) → ℤ → Exec (Web N) (List (GoString × List ShareInfo))
  unfolding on_each list_dsms
  cmd_share_list clients id = do
    dsms ← lift (list_dsms clients id)
    on_each (λ dsm. share_list N dsm) dsms []

  unfoldable pub cmd_lun_list :
      Result (List Dsm) → ℤ → Exec (Web N) (List (GoString × List LunInfo))
  unfolding on_each list_dsms
  cmd_lun_list clients id = do
    dsms ← lift (list_dsms clients id)
    on_each (λ dsm. lun_list N dsm) dsms []
