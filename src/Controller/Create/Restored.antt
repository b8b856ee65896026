-- ===== src/Controller/Create/Restored.antt =====
-- pkg/dsm/service/share_volume.go and pkg/driver/controllerserver.go: a share that is restored from a
-- snapshot, and the capacity test of CreateVolume.
use reference_guides.Base.{
  ℕ, ◌+◌, ◌^◌, ◌<◌, ℤ, pos, eqb_ℤ, ◌==◌, ◌≡◌, sym, ap, ◌∙◌, subst, Bool, false, ◌&&◌, ◌||◌, not,
  Result, ok, ValueHas, arith,
}
use reference_guides.Utils.{
  unit_mb, protocol_smb, protocol_iscsi, mb_to_bytes, bytes_to_mb, bytes_to_mb_ceil,
}
use reference_guides.Utils.Sizes.{rounded_up}
use reference_guides.WebApi.Session.{Dsm}
use reference_guides.Backend.{Backend}
use reference_guides.Models.{CreateK8sVolumeSpec, K8sVolumeRespSpec, K8sSnapshotRespSpec}
use reference_guides.Service.Smb.{create_smb_volume_by_snapshot}
use reference_guides.Service.Volumes.Origin.{
  IsOn, HasSize, restored_share-HasSize, create_smb_volume_by_snapshot-Ensures,
}
use reference_guides.Controller.Create.{is_other_capacity}

value_of : {A : Type 0} (P : A → Type 0) (r : Result A) (a : A) → ValueHas P r → r ≡ ok a → P a
value_of P r a h e = subst (ValueHas P) e h

tests : (b c d : Bool) (x y : ℤ) → b ≡ false → x ≡ y → (b && c || d && not (eqb_ℤ x y)) ≡ false
tests b c d x y h e = ground (arith, h, e)

-- A share that is restored from a snapshot has the capacity that the CreateVolume handler asks for, where
-- rounding the size up does not leave int64.
pub restored_share_fits :
    (B : Backend) (dsm : Dsm) (spec : CreateK8sVolumeSpec) (src : K8sSnapshotRespSpec) (s : B.State)
    (v : K8sVolumeRespSpec) (n : ℕ)
    → spec.size ≡ pos n
    → n + unit_mb < 2 ^ 63
    → (create_smb_volume_by_snapshot B dsm spec src s).0 ≡ ok v
    → is_other_capacity v spec.size ≡ false
unfolding is_other_capacity ◌==◌
restored_share_fits B dsm spec src s v n size fits e =
    let r = (create_smb_volume_by_snapshot B dsm spec src s).0 in
    let on =
      value_of (IsOn dsm protocol_smb) r v
        ((create_smb_volume_by_snapshot-Ensures B dsm spec src).ensures s) e in
    let sized =
      value_of (HasSize B dsm spec) r v ((restored_share-HasSize B dsm spec src).ensures s) e in
    tests (v.protocol == protocol_iscsi) (not (eqb_ℤ v.size_in_bytes spec.size))
      (v.protocol == protocol_smb) (bytes_to_mb v.size_in_bytes) (bytes_to_mb_ceil spec.size)
      (ap (λ p. p == protocol_iscsi) on.1)
      (ap bytes_to_mb sized
        ∙ subst (λ z. bytes_to_mb (mb_to_bytes (bytes_to_mb_ceil z)) ≡ bytes_to_mb_ceil z)
            (sym size) (rounded_up n fits).2)
