-- ===== src/Service/Registry/Addresses.antt =====
-- pkg/dsm/service/dsm.go: no two registered DSMs have one address.
use reference_guides.Base.{
  GoString, ◌==◌, eq_iff, ◌≡◌, ◌≢◌, refl, sym, subst, false≢true, Bool-cases, inl, inr, ◌⊎◌, All,
  Distinct, Option, none, some, [], ◌∷◌, Error, errorf, Result, ok, err, ok-injective, ◌∙◌,
}
use reference_guides.WebApi.Session.{Dsm}
use reference_guides.Backend.{Backend}
use reference_guides.Service.Registry.{Dsms, get_dsm, add_dsm, added}

unregistered :
    (ip : GoString) (dsms : Dsms) → get_dsm dsms ip ≡ none → All (λ dsm. ip ≢ dsm.ip) dsms
unfolding get_dsm
unregistered ip [] h = tt
unregistered ip (dsm ∷ dsms) h = elim (Bool-cases (dsm.ip == ip)) [
  | inl t ↦ absurd (no dsm (rw (t, get_dsm) at h))
  | inr f ↦ (
    λ same. false≢true (sym f ∙ (eq_iff dsm.ip ip).1 (sym same)),
    unregistered ip dsms (rw (f, get_dsm) at h),
  )
]
  where
    no : (d : Dsm) → some d ≡ none → ⊥
    no d x = cc

module _ (B : Backend) where
  open B use {State, login}

  -- AddDsm keeps the addresses of the registered DSMs different. Where it succeeds, the DSMs are those
  -- from before, or these and the new one.
  pub add_dsm-Distinct :
      (dsms : Dsms) (client : Dsm) (s : State) (dsms' : Dsms)
      → Distinct (λ dsm. dsm.ip) dsms
      → (add_dsm B dsms client s).0 ≡ ok dsms'
      → Distinct (λ dsm. dsm.ip) dsms' × ((dsms' ≡ dsms) ⊎ (dsms' ≡ client ∷ dsms))
  unfolding add_dsm
  add_dsm-Distinct dsms client s dsms' d h = go (get_dsm dsms client.ip) refl h
    where
      no : (e : Error) → err e ≡ ok dsms' → ⊥
      no e x = cc

      new :
          All (λ dsm. client.ip ≢ dsm.ip) dsms
          → (o : Option Error) (s' : State) → (added B dsms client (o, s')).0 ≡ ok dsms'
          → Distinct (λ dsm. dsm.ip) dsms' × ((dsms' ≡ dsms) ⊎ (dsms' ≡ client ∷ dsms))
      new u none s' x =
          let same = ok-injective (client ∷ dsms) dsms' x in
          (subst (Distinct (λ dsm. dsm.ip)) same (u, d), inr (sym same))
      new u (some e) s' x = absurd (no errorf x)

      go :
          (o : Option Dsm)
          → get_dsm dsms client.ip ≡ o
          → (elim o as (λ x. Result Dsms × State) [
            | some present ↦ (ok dsms, s)
            | none ↦ added B dsms client (login client s)
          ]).0
            ≡ ok dsms'
          → Distinct (λ dsm. dsm.ip) dsms' × ((dsms' ≡ dsms) ⊎ (dsms' ≡ client ∷ dsms))
      go none e x = new (unregistered client.ip dsms e) (login client s).0 (login client s).1 x
      go (some present) e x =
          let same = ok-injective dsms dsms' x in
          (subst (Distinct (λ dsm. dsm.ip)) same d, inl (sym same))
