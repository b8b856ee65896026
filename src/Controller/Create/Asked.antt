-- ===== src/Controller/Create/Asked.antt =====
-- pkg/driver/controllerserver.go: the access modes and the protocol that a request asks CreateVolume for.
use reference_guides.Base.{
  ℕ, eqb, GoString, codes, ◌==◌, eq_iff, eq_refl, to_lower, Bool, true, false, ◌⊎◌, inl, inr, ◌↔◌,
  Bool-cases, List, [], ◌∷◌, Code, Error, status, ok, err, ok-injective, ◌≡◌, ◌≢◌, false≢true, refl,
  sym, ◌∙◌, subst, if◌then◌else◌, All, arith,
}
use reference_guides.Utils.{protocol_smb, protocol_iscsi, protocol_default, slice_contains}
use reference_guides.Driver.{
  Driver, single_node_writer, multi_node_multi_writer, is_protocol_support,
}
use reference_guides.Service.Volumes.Creation.{IsSupported}
use reference_guides.Controller.Types.{StringMap, at_key, is_volume_access_mode_support}
use reference_guides.Controller.Create.{sessions_of, protocol_of, all_supported}

pub err_not_ok : {A : Type 0} {e : Error} (a : A) → err e ≡ ok a → ⊥
err_not_ok a x = cc

pub all_supported_lem :
    (d : Driver) (modes : List ℕ) (start multi : Bool)
    → sessions_of d start modes ≡ ok multi
    → all_supported d modes ≡ true
unfolding sessions_of all_supported
all_supported_lem d [] start multi e = refl
all_supported_lem d (mode ∷ modes) start multi e =
    elim (Bool-cases (is_volume_access_mode_support d mode)) [
      | inl t ↦ rw t (
          all_supported_lem d modes
            (if eqb mode single_node_writer
              then false
              else if eqb mode multi_node_multi_writer
              then true
              else start)
            multi (rw (t, sessions_of) at e))
      | inr f ↦ absurd (err_not_ok multi (rw (f, sessions_of) at e))
    ]

-- The last mode that has a say is the one of several writers: no mode after it is that of a single writer.
abbrev pub LastMulti : List ℕ → Type 0
LastMulti [] = ⊥
LastMulti (mode ∷ modes) =
    ((mode ≡ multi_node_multi_writer) × All (λ m. m ≢ single_node_writer) modes) ⊎ LastMulti modes

next_multi :
    (mode : ℕ) (start : Bool)
    → ((if eqb mode single_node_writer
          then false
          else if eqb mode multi_node_multi_writer
          then true
          else start)
        ≡ true)
      ↔ (((start ≡ true) × (mode ≢ single_node_writer)) ⊎ (mode ≡ multi_node_multi_writer))
next_multi mode start = ground arith

pub sessions_of_iff :
    (d : Driver) (modes : List ℕ) (start multi : Bool)
    → sessions_of d start modes ≡ ok multi
    → (multi ≡ true)
      ↔ (((start ≡ true) × All (λ m. m ≢ single_node_writer) modes) ⊎ LastMulti modes)
unfolding sessions_of
sessions_of_iff d [] start multi e = (there, back)
  where
    same : start ≡ multi
    same = ok-injective start multi e

    there : multi ≡ true → ((start ≡ true) × All (λ m. m ≢ single_node_writer) []) ⊎ LastMulti []
    there t = inl (same ∙ t, tt)

    back : ((start ≡ true) × All (λ m. m ≢ single_node_writer) []) ⊎ LastMulti [] → multi ≡ true
    back (inl (t, u)) = sym same ∙ t
    back (inr x) = absurd x
sessions_of_iff d (mode ∷ modes) start multi e =
    elim (Bool-cases (is_volume_access_mode_support d mode)) [
      | inl t ↦
          let later =
            sessions_of_iff d modes
              (if eqb mode single_node_writer
                then false
                else if eqb mode multi_node_multi_writer
                then true
                else start)
              multi (rw (t, sessions_of) at e) in
          (λ m. there (later.0 m), λ x. later.1 (back x))
      | inr f ↦ absurd (err_not_ok multi (rw (f, sessions_of) at e))
    ]
  where
    Rest : Type 0
    Rest = All (λ m. m ≢ single_node_writer) modes

    next : Bool
    next =
        if eqb mode single_node_writer
        then false
        else if eqb mode multi_node_multi_writer
        then true
        else start

    there :
        ((next ≡ true) × Rest) ⊎ LastMulti modes
        → ((start ≡ true) × All (λ m. m ≢ single_node_writer) (mode ∷ modes))
          ⊎ LastMulti (mode ∷ modes)
    there (inr last) = inr (inr last)
    there (inl (t, rest)) = elim ((next_multi mode start).0 t) [
      | inl (on, other) ↦ inl (on, (other, rest))
      | inr several ↦ inr (inl (several, rest))
    ]

    back :
        ((start ≡ true) × All (λ m. m ≢ single_node_writer) (mode ∷ modes))
          ⊎ LastMulti (mode ∷ modes)
        → ((next ≡ true) × Rest) ⊎ LastMulti modes
    back (inl (on, (other, rest))) = inl ((next_multi mode start).1 (inl (on, other)), rest)
    back (inr (inl (several, rest))) = inl ((next_multi mode start).1 (inr several), rest)
    back (inr (inr last)) = inr last

-- The protocol is the one that the parameters name, in lower case, or the default one where they name none.
abbrev pub IsAsked : StringMap → GoString → Type 0
IsAsked params protocol =
    ((to_lower (at_key params (codes "protocol")) ≡ []) × (protocol ≡ protocol_default))
    ⊎ ((to_lower (at_key params (codes "protocol")) ≢ [])
        × (protocol ≡ to_lower (at_key params (codes "protocol"))))

pub protocol_of-IsAsked :
    (params : StringMap) (protocol : GoString)
    → protocol_of params ≡ ok protocol
    → IsAsked params protocol
unfolding protocol_of
protocol_of-IsAsked params protocol e =
    let p = to_lower (at_key params (codes "protocol")) in
    go p (p == []) (is_protocol_support p) refl e
  where
    go :
        (p : GoString) (b c : Bool)
        → (p == []) ≡ b
        → (if b
            then ok protocol_default
            else if c
            then ok p
            else err (status Code.invalid_argument))
          ≡ ok protocol
        → ((p ≡ []) × (protocol ≡ protocol_default)) ⊎ ((p ≢ []) × (protocol ≡ p))
    go p true c x h = inl ((eq_iff p []).0 x, sym (ok-injective protocol_default protocol h))
    go p false true x h =
        inr (λ same. false≢true (sym x ∙ (eq_iff p []).1 same), sym (ok-injective p protocol h))
    go p false false x h = absurd (err_not_ok protocol h)

pub protocol_of-IsSupported :
    (params : StringMap) (protocol : GoString)
    → protocol_of params ≡ ok protocol
    → IsSupported protocol
unfolding protocol_of is_protocol_support slice_contains
protocol_of-IsSupported params protocol e =
    let p = to_lower (at_key params (codes "protocol")) in
    go p (p == []) (p == protocol_iscsi) (p == protocol_smb) refl refl e
  where
    go :
        (p : GoString) (b c d : Bool)
        → (p == protocol_iscsi) ≡ c
        → (p == protocol_smb) ≡ d
        → (if b
            then ok protocol_default
            else if (if c then true else if d then true else false)
            then ok p
            else err (status Code.invalid_argument))
          ≡ ok protocol
        → IsSupported protocol
    go p true c d x y h = inl (
        subst (λ q. (q == protocol_iscsi) ≡ true) (ok-injective protocol_default protocol h)
          (eq_refl protocol_iscsi))
    go p false true d x y h = subst IsSupported (ok-injective p protocol h) (inl x)
    go p false false true x y h = subst IsSupported (ok-injective p protocol h) (inr y)
    go p false false false x y h = absurd (err_not_ok protocol h)
