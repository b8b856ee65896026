-- ===== src/Node/Devices/Shared.antt =====
-- pkg/driver/multipath.go: what GetMultipathDevice finds.
use reference_guides.Base.{
  GoString, codes, ◌==◌, eq_iff, Bool-cases, inl, inr, All, Option, none, some, List, [], ◌∷◌,
  Result, ok, err, ◌≡◌, ◌↔◌, refl, sym, subst, ◌∙◌, ap, ok-injective,
}
use reference_guides.Node.Devices.{
  Device, device, no_device, one_more, info_of, children_of, shared_child, if_mpath,
  get_multipath_device,
}

-- The device has one child, of this name.
abbrev pub HasOnlyChild : GoString → Device → Type 0
HasOnlyChild name d =
    (child : Device) × (children_of d ≡ child ∷ []) × ((info_of child).name ≡ name)

-- The child of the last device, or what was there before where there is none.
abbrev pub LastFrom : Option Device → Device → List Device → Type 0
LastFrom before c [] = before ≡ some c
LastFrom before c (d ∷ ds) =
    (child : Device) × (children_of d ≡ child ∷ []) × LastFrom (some child) c ds

abbrev pub LastChild : Device → List Device → Type 0
LastChild c ds = LastFrom none c ds

abbrev HasName : GoString → Option Device → Type 0
HasName name none = Unit
HasName name (some d) = (info_of d).name ≡ name

only : (x y : Device) → ◌≡◌ {A = List Device} (x ∷ []) (y ∷ []) → x ≡ y
only x y e = cc

-- What the loop found has the name of all, and is the child of the last device.
record IsShared (before : Option Device) (c : Device) (ds : List Device) : Type 0 where
  each : All (HasOnlyChild (info_of c).name) ds
  last : LastFrom before c ds
  agrees : HasName (info_of c).name before

shared_child-IsShared :
    (before : Option Device) (ds : List Device) (c : Device)
    → shared_child before ds ≡ ok (some c)
    → IsShared before c ds
unfolding shared_child
shared_child-IsShared none [] c e = cc
shared_child-IsShared (some b) [] c e =
    let same : b ≡ c = cc in
    record { each = tt; last = ap some same; agrees = ap (λ d. (info_of d).name) same }
shared_child-IsShared before (device info no_device ∷ ds) c e = cc
shared_child-IsShared before (device info (one_more x (one_more y ys)) ∷ ds) c e = cc
shared_child-IsShared none (device info (one_more child no_device) ∷ ds) c e =
    let r = shared_child-IsShared (some child) ds c e in
    record { each = ((child, refl, r.agrees), r.each); last = (child, refl, r.last); agrees = tt }
shared_child-IsShared (some b) (device info (one_more child no_device) ∷ ds) c e =
    elim (Bool-cases ((info_of child).name == (info_of b).name)) [
      | inl t ↦
          let r = shared_child-IsShared (some child) ds c (rw t at e) in
          record {
            each = ((child, refl, r.agrees), r.each);
            last = (child, refl, r.last);
            agrees = sym ((eq_iff (info_of child).name (info_of b).name).0 t) ∙ r.agrees;
          }
      | inr f ↦ absurd (let g = rw f at e in cc)
    ]

IsShared-shared_child :
    (before : Option Device) (ds : List Device) (c : Device)
    → All (HasOnlyChild (info_of c).name) ds
    → LastFrom before c ds
    → HasName (info_of c).name before
    → shared_child before ds ≡ ok (some c)
unfolding shared_child
IsShared-shared_child before [] c each last agrees = ap ok last
IsShared-shared_child before (device info no_device ∷ ds) c ((x, e, n), each) last agrees = cc
IsShared-shared_child before (device info (one_more x (one_more y ys)) ∷ ds) c ((z, e, n), each)
      last agrees =
    cc
IsShared-shared_child none (device info (one_more child no_device) ∷ ds) c ((x, e, n), each)
      (z, e', last) agrees =
    IsShared-shared_child (some child) ds c each
      (subst (λ y. LastFrom (some y) c ds) (sym (only child z e')) last)
      (ap (λ d. (info_of d).name) (only child x e) ∙ n)
IsShared-shared_child (some b) (device info (one_more child no_device) ∷ ds) c ((x, e, n), each)
      (z, e', last) agrees =
    let named : (info_of child).name ≡ (info_of c).name =
      ap (λ d. (info_of d).name) (only child x e) ∙ n in
    rw ((eq_iff (info_of child).name (info_of b).name).1 (named ∙ sym agrees)) (
      IsShared-shared_child (some child) ds c each
        (subst (λ y. LastFrom (some y) c ds) (sym (only child z e')) last) named)

if_mpath_inv :
    (r : Result (Option Device)) (found : Device)
    → if_mpath r ≡ ok found
    → (r ≡ ok (some found)) × ((info_of found).device_type ≡ codes "mpath")
if_mpath_inv (err e) found h = cc
if_mpath_inv (ok none) found h = cc
if_mpath_inv (ok (some d)) found h = elim (Bool-cases ((info_of d).device_type == codes "mpath")) [
  | inl t ↦
      let same : d ≡ found = ok-injective d found (rw t at h) in
      (
        ap (λ x. ok (some x)) same,
        subst (λ x. (info_of x).device_type ≡ codes "mpath") same ((eq_iff _ _).0 t),
      )
  | inr f ↦ absurd (let g = rw f at h in cc)
]

-- GetMultipathDevice finds a device exactly if each device has one child, the children have one name,
-- and the last of them, which it finds, is of type mpath.
pub get_multipath_device_iff :
    (devices : List Device) (found : Device)
    → (get_multipath_device devices ≡ ok found) ↔ (
        All (HasOnlyChild (info_of found).name) devices
        × LastChild found devices
        × ((info_of found).device_type ≡ codes "mpath"))
unfolding get_multipath_device
get_multipath_device_iff devices found = (
  λ e.
      let (shared, mpath) = if_mpath_inv (shared_child none devices) found e in
      let r = shared_child-IsShared none devices found shared in (r.each, r.last, mpath),
  λ (each, last, mpath).
      rw (IsShared-shared_child none devices found each last tt)
        (rw ((eq_iff (info_of found).device_type (codes "mpath")).1 mpath) refl),
)
