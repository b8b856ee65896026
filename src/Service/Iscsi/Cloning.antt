-- ===== src/Service/Iscsi/Cloning.antt =====
-- pkg/dsm/service/dsm.go: waitCloneFinished waits until the LUN is unlocked.
use reference_guides.Base.{
  ℕ, zero, suc, GoString, ◌≡◌, refl, ap, Bool, true, false, Error, errorf, Result, ok, err, pure,
  fail, ◌>>=◌, continue, replace_error, if◌then◌else◌, ◌∙◌,
}
use reference_guides.WebApi.Types.{LunInfo}
use reference_guides.WebApi.Session.{Dsm}
use reference_guides.Backend.{Backend}
use reference_guides.Service.Iscsi.{is_still_cloning, wait_clone_finished}

module _ (B : Backend) (lun_name : GoString) (dsm : Dsm) where
  open B use {State, lun_get}

  -- The last thing that was asked is the LUN, which was found unlocked.
  pub record IsUnlocked (after : State) : Type 0 where
    pub before : State
    pub lun : LunInfo
    pub seen : lun_get lun_name dsm before ≡ (ok lun, after)
    pub unlocked : lun.is_action_locked ≡ false

  no : {A : Type 0} (e : Error) (a : A) (s t : State) → fail {S = State} {A = A} e s ≡ (ok a, t) → ⊥
  no e a s t x = cc

  one_round :
      (next : State → Result Unit × State)
      → ((s : State) (after : State) → next s ≡ (ok tt, after) → IsUnlocked after)
      → (s : State) (after : State)
      → (is_still_cloning B lun_name dsm >>= λ locked. if locked then next else pure tt) s
        ≡ (ok tt, after)
      → IsUnlocked after
  unfolding is_still_cloning
  one_round next k s after h = go (lun_get lun_name dsm s) refl h
    where
      rest : (b : Bool) → State → Result Unit × State
      rest b = if b then next else pure tt

      go :
          (r : Result LunInfo × State)
          → lun_get lun_name dsm s ≡ r
          → (continue rest
              (continue (λ (lun : LunInfo). pure lun.is_action_locked) (replace_error errorf r)))
            ≡ (ok tt, after)
          → IsUnlocked after
      go (err e, s') g x = absurd (no errorf tt s' after x)
      go (ok lun, s') g x = on lun.is_action_locked refl x
        where
          on : (b : Bool) → lun.is_action_locked ≡ b → rest b s' ≡ (ok tt, after) → IsUnlocked after
          on true l y = k s' after y
          on false l y = record {
            before = s;
            lun = lun;
            seen = g ∙ ap (λ (z : Result Unit × State). (ok lun, z.1)) y;
            unlocked = l;
          }

  -- However often it may ask again, waitCloneFinished succeeds only after LunGet showed the LUN unlocked,
  -- and that was its last call.
  pub wait_clone_finished-IsUnlocked :
      (n : ℕ) (s : State) (after : State)
      → wait_clone_finished B n lun_name dsm s ≡ (ok tt, after)
      → IsUnlocked after
  unfolding wait_clone_finished
  wait_clone_finished-IsUnlocked zero s after h =
      one_round (fail errorf) (λ t u x. absurd (no errorf tt t u x)) s after h
  wait_clone_finished-IsUnlocked (suc n) s after h =
      one_round (wait_clone_finished B n lun_name dsm) (wait_clone_finished-IsUnlocked n) s after h
