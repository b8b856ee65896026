-- ===== src/Node/Stats/Unchecked.antt =====
-- pkg/driver/nodeserver.go: the capacity that NodeExpandVolume answers with.
use reference_guides.Base.{
  ℤ, pos, is_empty, Bool, true, false, ◌||◌, if◌then◌else◌, ◌⊎◌, inl, inr, Option, none, some,
  Error, Result, ok, err, ok-injective, Exec, pure, fail, continue, ◌>>=◌, status, not_found, subst,
  ◌==◌, ◌≡◌, refl, sym, ap, ◌∙◌,
}
use reference_guides.Utils.{protocol_smb}
use reference_guides.Models.{K8sVolumeRespSpec}
use reference_guides.Controller.Types.{CapacityRange, get_size_by_capacity_range}
use reference_guides.Controller.Create.Checked.{IsSize, get_size_by_capacity_range_iff}
use reference_guides.Node.Server.{NodeServer, StateOf}
use reference_guides.Node.Stats.{
  NodeExpandVolumeRequest, size_or_zero, found_volume, expand_lun, handle_node_expand_volume,
}

-- The size that the range asks for, or 0 where there is no such size.
abbrev pub IsSizeOrZero : Option CapacityRange → ℤ → Type 0
IsSizeOrZero range size =
    IsSize range size ⊎ ((size ≡ pos 0) × ((other : ℤ) → IsSize range other → ⊥))

size_or_zero-IsSizeOrZero :
    (range : Option CapacityRange)
    → IsSizeOrZero range (size_or_zero (get_size_by_capacity_range range))
size_or_zero-IsSizeOrZero range = go (get_size_by_capacity_range range) refl
  where
    go : (r : Result ℤ) → get_size_by_capacity_range range ≡ r → IsSizeOrZero range (size_or_zero r)
    go (ok size) e = inl ((get_size_by_capacity_range_iff range size).0 e)
    go (err x) e =
        inr (
          refl,
          λ other is. differ other (sym e ∙ (get_size_by_capacity_range_iff range other).1 is),
        )
      where
        differ : (other : ℤ) → err x ≡ ok other → ⊥
        differ other d = cc

module _ {S A B : Type 0} where
  -- What a sequence that succeeds has done.
  bind-ok :
      (m : Exec S A) (f : A → Exec S B) (s : S) (b : B)
      → ((m >>= f) s).0 ≡ ok b
      → (a : A) × ((m s).0 ≡ ok a) × ((f a (m s).1).0 ≡ ok b)
  bind-ok m f s b h = go (m s).0 h
    where
      go :
          (r : Result A)
          → (continue f (r, (m s).1)).0 ≡ ok b
          → (a : A) × (r ≡ ok a) × ((f a (m s).1).0 ≡ ok b)
      go (ok a) x = (a, refl, x)
      go (err e) x = cc

module _ {S A : Type 0} where
  if-ok :
      (test : Bool) (e : Error) (m : Exec S A) (s : S) (a : A)
      → ((if test then fail e else m) s).0 ≡ ok a
      → (m s).0 ≡ ok a
  if-ok true e m s a h = cc
  if-ok false e m s a h = h

module _ (ns : NodeServer) (req : NodeExpandVolumeRequest) where
  found :
      (s : StateOf ns) (v : K8sVolumeRespSpec)
      → (found_volume ns req.volume_id s).0 ≡ ok v
      → (ns.service.get_volume req.volume_id s.0).0 ≡ some v
  unfolding found_volume
  found s v h = go (ns.service.get_volume req.volume_id s.0).0 h
    where
      go :
          (o : Option K8sVolumeRespSpec)
          → (elim o as (λ x. Exec (StateOf ns) K8sVolumeRespSpec) [
            | none ↦ fail (status not_found)
            | some w ↦ pure w
          ]
              ((ns.service.get_volume req.volume_id s.0).1, s.1)).0
            ≡ ok v
          → o ≡ some v
      go none x = cc
      go (some w) x = ap some (ok-injective w v x)

  -- NodeExpandVolume succeeds only for a volume that the service has. It answers with the size that the
  -- capacity range asks for, or, where there is no size that the range allows, with the capacity 0.
  pub handle_node_expand_volume-IsSizeOrZero :
      (s : StateOf ns) (size : ℤ)
      → (handle_node_expand_volume ns req s).0 ≡ ok size
      → (v : K8sVolumeRespSpec) × ((ns.service.get_volume req.volume_id s.0).0 ≡ some v)
        × IsSizeOrZero req.capacity_range size
  unfolding handle_node_expand_volume
  handle_node_expand_volume-IsSizeOrZero s size h =
      let answer = size_or_zero (get_size_by_capacity_range req.capacity_range) in
      let (v, f, h₁) =
        bind-ok (found_volume ns req.volume_id) _ s size
          (if-ok (is_empty req.volume_id || is_empty req.volume_path) _ _ s size h) in
      let (done, e, h₂) =
        bind-ok (if v.protocol == protocol_smb then pure tt else expand_lun ns req v)
          (λ u. pure answer) (found_volume ns req.volume_id s).1 size h₁ in
      (
        v,
        found s v f,
        subst (IsSizeOrZero req.capacity_range) (ok-injective answer size h₂)
            (size_or_zero-IsSizeOrZero req.capacity_range),
      )
