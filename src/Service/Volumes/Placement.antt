-- ===== src/Service/Volumes/Placement.antt =====
-- pkg/dsm/service/dsm.go: on which DSM CreateVolume makes a volume from nothing.
use reference_guides.Base.{
  GoString, false, inl, inr, Bool-cases, List, [], ◌∷◌, ◌++◌, status, internal, Result, ok, err,
  ◌≡◌, refl, ap, ◌∙◌, sym, subst,
}
use reference_guides.WebApi.Session.{Dsm}
use reference_guides.Backend.{Backend}
use reference_guides.Models.{CreateK8sVolumeSpec}
use reference_guides.Service.Registry.{Dsms, is_other}
use reference_guides.Service.Volumes.{Answer, Round, settled, create_on, create_on_first}
use reference_guides.Service.Volumes.Creation.{IsSupported, IsRound, create_on-IsRound}

abbrev relocated : GoString → CreateK8sVolumeSpec → CreateK8sVolumeSpec
relocated location spec = record spec { location = location }

module _ (B : Backend) where
  open B use {State}

  -- The volume was made by the round of this DSM, which may be used for the spec. Only the location of
  -- the spec may have changed before.
  pub record IsPlaced (dsms : Dsms) (spec : CreateK8sVolumeSpec) (s : State) (v : Answer)
      (after : State) : Type 0 where
    pub passed : List Dsm
    pub dsm : Dsm
    pub rest : List Dsm
    pub before : State
    pub spec_then : CreateK8sVolumeSpec
    pub spec_after : CreateK8sVolumeSpec
    pub parts : dsms ≡ passed ++ (dsm ∷ rest)
    pub chosen : is_other spec.dsm_ip dsm ≡ false
    pub same_spec : spec_then ≡ record spec { location = spec_then.location }
    pub made : create_on B dsm spec_then before ≡ (ok v, spec_after, after)

  skipped :
      (dsm : Dsm) (dsms : Dsms) (spec : CreateK8sVolumeSpec) (s : State) (s' : State) (v : Answer)
      (after : State) (spec' : CreateK8sVolumeSpec)
      → spec' ≡ record spec { location = spec'.location }
      → IsPlaced dsms spec' s' v after
      → IsPlaced (dsm ∷ dsms) spec s v after
  skipped dsm dsms spec s s' v after spec' same p = record {
    passed = dsm ∷ p.passed;
    dsm = p.dsm;
    rest = p.rest;
    before = p.before;
    spec_then = p.spec_then;
    spec_after = p.spec_after;
    parts = ap (λ l. dsm ∷ l) p.parts;
    chosen = subst (λ x. is_other x.dsm_ip p.dsm ≡ false) same p.chosen;
    same_spec = p.same_spec ∙ ap (relocated p.spec_then.location) same;
    made = p.made;
  }

  -- For a supported protocol, a volume made from nothing is made by one round of the loop, on a DSM that the
  -- spec does not exclude, with the caller's spec up to the location.
  pub create_on_first-IsPlaced :
      (dsms : Dsms) (spec : CreateK8sVolumeSpec) (s : State) (v : Answer) (after : State)
      → IsSupported spec.protocol
      → create_on_first B dsms spec s ≡ (ok v, after)
      → IsPlaced dsms spec s v after
  unfolding create_on_first
  create_on_first-IsPlaced [] spec s v after h e = absurd (no (ap (λ x. x.0) e))
    where
      no : err (status internal) ≡ ok v → ⊥
      no x = cc
  create_on_first-IsPlaced (dsm ∷ dsms) spec s v after h e =
      elim (Bool-cases (is_other spec.dsm_ip dsm)) [
        | inl t ↦
            skipped dsm dsms spec s s v after spec refl
              (create_on_first-IsPlaced dsms spec s v after h (rw (t, create_on_first) at e))
        | inr f ↦
            go f (create_on B dsm spec s) refl (create_on-IsRound B dsm spec s h)
              (rw (f, create_on_first) at e) (create_on_first-IsPlaced dsms)
      ]
    where
      go :
          is_other spec.dsm_ip dsm ≡ false
          → (round : Round B) → create_on B dsm spec s ≡ round
          → IsRound B spec round
          → settled B (λ spec' s'. create_on_first B dsms spec' s') round ≡ (ok v, after)
          → ((spec' : CreateK8sVolumeSpec) (s' : State) (w : Answer) (t : State)
              → IsSupported spec'.protocol
              → create_on_first B dsms spec' s' ≡ (ok w, t)
              → IsPlaced dsms spec' s' w t)
          → IsPlaced (dsm ∷ dsms) spec s v after
      go f (ok w, spec', s') made round x later = record {
        passed = [];
        dsm = dsm;
        rest = dsms;
        before = s;
        spec_then = spec;
        spec_after = spec';
        parts = refl;
        chosen = f;
        same_spec = refl;
        made = made ∙ ap (λ (r : Result Answer × State). (r.0, spec', r.1)) x;
      }
      go f (err er, spec', s') made (a, same) x later =
          skipped dsm dsms spec s s' v after spec' same
            (later spec' s' v after (subst (λ y. IsSupported y.protocol) (sym same) h) x)
