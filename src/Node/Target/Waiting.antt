-- ===== src/Node/Target/Waiting.antt =====
-- pkg/driver/nodeserver.go: when waitForDevicePathToExist succeeds.
use reference_guides.Base.{
  ℕ, zero, suc, ◌<◌, GoString, Bool, true, false, Result, ok, err, pure, continue, ◌≡◌, ◌≢◌, ◌↔◌,
  refl, sym, ◌∙◌, arith, if◌then◌else◌,
}
use reference_guides.Node.Host.{Host}
use reference_guides.Node.Target.{wait_for_path}

module _ (H : Host) (path : GoString) where
  -- The first look that finds the path is the one of this number, and none before it fails.
  abbrev pub Appears : ℕ → H.State → Type 0
  Appears zero s = (H.path_exists path s).0 ≡ ok true
  Appears (suc k) s = ((H.path_exists path s).0 ≡ ok false) × Appears k (H.path_exists path s).1

  abbrev pub AppearsWithin : ℕ → H.State → Type 0
  AppearsWithin ticks s = (k : ℕ) × (k < ticks) × Appears k s

  later :
      (ticks : ℕ) (s : H.State) (r : Result Bool)
      → (H.path_exists path s).0 ≡ r
      → r ≢ ok true
      → AppearsWithin (suc ticks) s
      → (r ≡ ok false) × AppearsWithin ticks (H.path_exists path s).1
  later ticks s r e other (zero, less, a) = absurd (other (sym e ∙ a))
  later ticks s r e other (suc k, less, (a, b)) = (sym e ∙ a, (k, omega (arith, less), b))

  looked :
      (ticks : ℕ) (s : H.State) (r : Result Bool)
      → (H.path_exists path s).0 ≡ r
      → ((wait_for_path H ticks path (H.path_exists path s).1).0 ≡ ok tt
          ↔ AppearsWithin ticks (H.path_exists path s).1)
      → ((continue
              (λ there. if there then pure tt else wait_for_path H ticks path)
              (r, (H.path_exists path s).1)).0
            ≡ ok tt
          ↔ AppearsWithin (suc ticks) s)
  looked ticks s (ok true) e ih = (λ h. (0, omega arith, e), λ h. refl)
  looked ticks s (ok false) e ih = (
    λ h. let (k, less, a) = ih.0 h in (suc k, omega (arith, less), (e, a)),
    λ h. ih.1 (later ticks s (ok false) e (λ x. cc) h).1,
  )
  looked ticks s (err x) e ih =
      (λ h. cc, λ h. let found : err x ≡ ok false = (later ticks s (err x) e (λ y. cc) h).0 in cc)

  -- waitForDevicePathToExist succeeds exactly if one of its looks finds the path, and no look before that
  -- one fails.
  pub wait_for_path_iff :
      (ticks : ℕ) (s : H.State) → (wait_for_path H ticks path s).0 ≡ ok tt ↔ AppearsWithin ticks s
  unfolding wait_for_path
  wait_for_path_iff zero s = (λ e. cc, λ (k, less, a). absurd (omega (arith, less)))
  wait_for_path_iff (suc ticks) s =
      looked ticks s (H.path_exists path s).0 refl
        (wait_for_path_iff ticks (H.path_exists path s).1)
