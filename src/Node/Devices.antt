-- ===== src/Node/Devices.antt =====
-- pkg/driver/multipath.go: the tree of devices that lsblk prints, and the multipath device in it.
pub mod Shared
use reference_guides.Base.{
  ℕ, zero, suc, ◌+◌, GoString, codes, ◌==◌, ◌/=◌, split, trim, is_empty, eqb, get_elem?, Bool, true,
  false, ◌||◌, not, Option, none, some, List, [], ◌∷◌, map, Result, ok, err, errorf,
  index_out_of_range, Exec, if◌then◌else◌, ◌++◌,
}
use reference_guides.Node.Host.{Host, CommandError, exit_error, not_run, CommandOutput}

-- The fields of Device but Children.
pub record DeviceInfo : Type 0 where
  pub name : GoString
  pub hctl : GoString
  pub device_type : GoString
  pub transport : GoString
  pub size : GoString

mutual
  pub data Device : Type 0 where
    device : DeviceInfo → Devices → Device

  pub data Devices : Type 0 where
    no_device : Devices
    one_more : Device → Devices → Devices

abbrev pub info_of : Device → DeviceInfo
info_of (device info children) = info

-- The children as a list.
abbrev pub listed_devices : Devices → List Device
listed_devices no_device = []
listed_devices (one_more d ds) = d ∷ listed_devices ds

abbrev pub children_of : Device → List Device
children_of (device info children) = listed_devices children

abbrev pub append_device : Devices → Device → Devices
append_device no_device e = one_more e no_device
append_device (one_more d ds) e = one_more d (append_device ds e)

-- The loop of GetMultipathDevice, with the device found so far: a child that every device shares by name.
unfoldable pub shared_child : Option Device → List Device → Result (Option Device)
shared_child found [] = ok found
shared_child found (device info (one_more child no_device) ∷ ds) =
    let rest = shared_child (some child) ds in
    elim found [
      | none ↦ rest
      | some other ↦ if (info_of child).name /= (info_of other).name then err errorf else rest
    ]
shared_child found (d ∷ ds) = err errorf

-- What GetMultipathDevice does behind its loop.
abbrev pub if_mpath : Result (Option Device) → Result Device
if_mpath (err e) = err e
if_mpath (ok none) = err errorf
if_mpath (ok (some d)) = if (info_of d).device_type /= codes "mpath" then err errorf else ok d

-- GetMultipathDevice
unfoldable pub get_multipath_device : List Device → Result Device
unfolding shared_child
get_multipath_device devices = if_mpath (shared_child none devices)

-- A line of lsblk: the columns KNAME and PKNAME, and the device.
pub record Row : Type 0 where
  pub kname : GoString
  pub pkname : GoString
  pub dev : Device

-- A line with fewer than 5 columns is refused; with 5 or 6, columns[5] or columns[6] is out of range.
unfoldable pub row_of : List GoString → Result Row
row_of (name ∷ kname ∷ pkname ∷ hctl ∷ device_type ∷ transport ∷ size ∷ more) = ok (record {
  kname = kname;
  pkname = pkname;
  dev =
      device
        (record {
          name = name;
          hctl = hctl;
          device_type = device_type;
          transport = transport;
          size = size;
        })
        no_device;
})
row_of (name ∷ kname ∷ pkname ∷ hctl ∷ device_type ∷ more) = err index_out_of_range
row_of _ = err errorf

abbrev pub onto_rows : Result Row → Result (List Row) → Result (List Row)
onto_rows (err e) rest = err e
onto_rows (ok r) (err e) = err e
onto_rows (ok r) (ok rs) = ok (r ∷ rs)

unfoldable pub rows_of : List GoString → Result (List Row)
unfolding row_of
rows_of [] = ok []
rows_of (line ∷ lines) = onto_rows (row_of (split b' ' line)) (rows_of lines)

-- devicesMap[key] as a place in `devices`: the last row of that KNAME, where the first is at place `n`.
unfoldable pub place_of : GoString → ℕ → List Row → Option ℕ
place_of key n [] = none
place_of key n (r ∷ rs) = elim (place_of key (n + 1) rs) [
  | some m ↦ some m
  | none ↦ if r.kname == key then some n else none
]

-- A copy of the device `d` becomes the last child of the device at the place.
unfoldable pub add_child : Device → ℕ → List Device → List Device
add_child d n [] = []
add_child d zero (device info children ∷ ds) = device info (append_device children d) ∷ ds
add_child d (suc n) (e ∷ ds) = e ∷ add_child d n ds

abbrev pub adopt : ℕ → ℕ → List Device → List Device
adopt parent child devices = elim (get_elem? devices child) [
  | none ↦ devices
  | some d ↦ add_child d parent devices
]

-- The loop that builds the tree: the devices by their places, and the rows from the place `i` on.
unfoldable pub build_tree : List Row → ℕ → List Row → List Device → Result (List Device)
unfolding place_of add_child
build_tree rows i [] devices = ok devices
build_tree rows i (r ∷ rs) devices =
    let next = λ (ds : List Device). build_tree rows (i + 1) rs ds in
    if is_empty r.pkname then next devices else elim (place_of r.pkname 0 rows) [
      | none ↦ err errorf
      | some parent ↦ next (adopt parent i devices)
    ]

-- The devices of the rows that name no parent.
unfoldable pub roots : List Row → List Device → List Device
roots (r ∷ rs) (d ∷ ds) = if is_empty r.pkname then d ∷ roots rs ds else roots rs ds
roots _ _ = []

abbrev pub rooted : List Row → Result (List Device) → Result (List Device)
rooted rows (err e) = err e
rooted rows (ok devices) = ok (roots rows devices)

abbrev pub tree_of : Result (List Row) → Result (List Device)
tree_of (err e) = err e
tree_of (ok rows) = rooted rows (build_tree rows 0 rows (map (λ r. r.dev) rows))

-- The reading of what lsblk printed.
unfoldable pub parse_devices : GoString → Result (List Device)
unfolding rows_of build_tree roots
parse_devices out = tree_of (rows_of (split b'\n' (trim (λ c. eqb c b'\n') out)))

-- The exit status 64 says that some devices were found.
abbrev pub is_ignored : Bool → CommandError → Bool
is_ignored strict (exit_error code) = if strict || not (eqb code 64) then false else true
is_ignored strict not_run = false

abbrev pub devices_in : Bool → CommandOutput → Result (List Device)
devices_in strict output = elim output.error [
  | none ↦ parse_devices output.out
  | some e ↦ if is_ignored strict e then parse_devices output.out else err errorf
]

module _ (H : Host) where
  open H use {State, run}

  unfoldable pub lsblk : List GoString → Bool → Exec State (List Device)
  unfolding parse_devices
  lsblk device_paths strict s =
      let (output, s') =
        run
          (codes "lsblk"
            ∷ codes "-rn"
            ∷ codes "-o"
            ∷ codes "NAME,KNAME,PKNAME,HCTL,TYPE,TRAN,SIZE"
            ∷ device_paths)
          s in
      (devices_in strict output, s')
