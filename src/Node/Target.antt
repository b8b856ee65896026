-- ===== src/Node/Target.antt =====
-- pkg/driver/nodeserver.go: the portals of a DSM, login to a target and logout, and the path of a volume.
pub mod Waiting
use reference_guides.Base.{
  ℕ, zero, suc, ℤ, itoa, GoString, codes, ◌==◌, contains, file_path_join, map, Bool, true, false,
  Option, none, some, List, [], ◌∷◌, ◌++◌, status, not_found, internal, Result, ok, err, errorf,
  index_out_of_range, Exec, fail, pure, lift, or_status, or_value, ◌>>=◌, ◌>>◌, if◌then◌else◌,
}
use reference_guides.Utils.{protocol_iscsi, lookup_ipv4}
use reference_guides.WebApi.Types.{TargetInfo}
use reference_guides.WebApi.Session.{Dsm}
use reference_guides.Models.{K8sVolumeRespSpec}
use reference_guides.Node.Host.{Host}
use reference_guides.Node.Sessions.{portal_of, first_piece, login, logout, list_sessions_by_iqn}
use reference_guides.Node.Devices.{Device, info_of, get_multipath_device, lsblk}
use reference_guides.Node.Multipath.{is_multipath_enabled, multipath_flush}
use reference_guides.Node.Server.{NodeServer, StateOf, on_service, on_host, always}

-- fmt.Sprintf("%sip-%s-iscsi-%s-lun-%d", "/dev/disk/by-path/", …)
abbrev pub device_path : GoString → GoString → ℤ → GoString
device_path portal iqn mapping_index =
    codes "/dev/disk/by-path/ip-"
    ++ (portal ++ (codes "-iscsi-" ++ (iqn ++ (codes "-lun-" ++ itoa mapping_index))))

-- Target.MappedLuns[0].MappingIndex
unfoldable pub mapping_index_of : TargetInfo → Result ℤ
mapping_index_of target = elim target.mapped_luns [
  | [] ↦ err index_out_of_range
  | mapping ∷ more ↦ ok mapping.mapping_index
]

module _ (H : Host) where
  open H use {State, path_exists}

  -- waitForDevicePathToExist: one look at each tick, until the timer.
  unfoldable pub wait_for_path : ℕ → GoString → Exec State Unit
  wait_for_path zero path = fail errorf
  wait_for_path (suc ticks) path =
      let rest = wait_for_path ticks path in
      do exists ← path_exists path; if exists then pure tt else rest

  abbrev pub wait_for_device_path_to_exist : GoString → Exec State Unit
  wait_for_device_path_to_exist path = wait_for_path H.ticks path

  abbrev pub mapper_path : Device → GoString
  mapper_path mpath = file_path_join (codes "/dev/mapper") (info_of mpath).name

  -- getVolumeMountPath before it waits: one path is taken as it is, several are those of a multipath
  -- device, and without one it returns "" at once.
  unfoldable pub chosen_path : List GoString → Exec State (Option GoString)
  unfolding lsblk get_multipath_device
  chosen_path [] = pure none
  chosen_path (path ∷ []) = pure (some path)
  chosen_path (path ∷ other ∷ paths) = or_value none (do
    devices ← lsblk H (path ∷ other ∷ paths) true
    mpath ← lift (get_multipath_device devices)
    pure (some (mapper_path mpath)))

  unfoldable pub waited_path : Option GoString → Exec State GoString
  unfolding wait_for_path
  waited_path none = pure []
  waited_path (some path) = or_value [] (wait_for_device_path_to_exist path >> pure path)

  -- getVolumeMountPath
  unfoldable pub get_volume_mount_path : List GoString → Exec State GoString
  unfolding chosen_path waited_path
  get_volume_mount_path iscsi_dev_paths = do path ← chosen_path iscsi_dev_paths; waited_path path

  -- getExistedVolumeMountPath
  unfoldable pub get_existed_volume_mount_path : GoString → ℤ → Exec State GoString
  unfolding list_sessions_by_iqn get_volume_mount_path
  get_existed_volume_mount_path target_iqn mapping_index = do
    sessions ← list_sessions_by_iqn H target_iqn
    get_volume_mount_path (map (λ s. device_path s.portal target_iqn mapping_index) sessions)

abbrev pub is_iscsi : K8sVolumeRespSpec → Bool
is_iscsi v = v.protocol == protocol_iscsi

-- The portal of the DSM itself: its first address, or its name where that has none.
abbrev pub own_portal : GoString → Result (List GoString) → GoString
own_portal dsm_ip (err e) = portal_of dsm_ip
own_portal dsm_ip (ok ips) = portal_of (first_piece ips)

module _ (ns : NodeServer) where
  abbrev State : Type 0
  State = StateOf ns

  -- `dsm.IsUC() && IsMultipathEnabled()`
  unfoldable pub has_two_controllers : Dsm → Exec State Bool
  unfolding is_multipath_enabled
  has_two_controllers dsm = do
    uc ← on_service (ns.service.is_uc dsm)
    if uc then on_host (is_multipath_enabled ns.host ns.multipath_enabled) else pure false

  -- The portal of the other controller, and none where that is not found.
  unfoldable pub other_portals : Dsm → Exec State (List GoString)
  other_portals dsm = or_value [] (do
    other ← on_service (ns.service.get_another_controller dsm)
    pure (portal_of other.ip ∷ []))

  unfoldable pub portals_on : GoString → Dsm → Exec State (List GoString)
  unfolding has_two_controllers other_portals lookup_ipv4
  portals_on dsm_ip dsm = do
    ips ← on_host (always (ns.host.look_up_ip dsm_ip))
    two ← has_two_controllers dsm
    more ← (if two then other_portals dsm else pure [])
    pure (own_portal dsm_ip (lookup_ipv4 ips) ∷ more)

  -- getPortals
  unfoldable pub get_portals : GoString → Exec State (List GoString)
  unfolding portals_on
  get_portals dsm_ip = elim (ns.service.get_dsm dsm_ip) [
    | none ↦ pure []
    | some dsm ↦ portals_on dsm_ip dsm
  ]

  -- One round of the loop of loginTarget.
  unfoldable pub login_portal : GoString → ℤ → GoString → Exec State GoString
  unfolding login wait_for_path
  login_portal iqn mapping_index portal = do
    or_status internal (on_host (login ns.host iqn portal))
    or_status internal
        (on_host (wait_for_device_path_to_exist ns.host (device_path portal iqn mapping_index)))
    pure (device_path portal iqn mapping_index)

  unfoldable pub login_portals : GoString → ℤ → List GoString → Exec State (List GoString)
  unfolding login_portal
  login_portals iqn mapping_index [] = pure []
  login_portals iqn mapping_index (portal ∷ portals) = do
    path ← login_portal iqn mapping_index portal
    paths ← login_portals iqn mapping_index portals
    pure (path ∷ paths)

  unfoldable pub login_volume : K8sVolumeRespSpec → Exec State (List GoString)
  unfolding get_portals mapping_index_of login_portals
  login_volume v = do
    portals ← get_portals v.dsm_ip
    elim portals [
      | [] ↦ fail (status internal)
      | portal ∷ more ↦ (do
        mapping_index ← lift (mapping_index_of v.target)
        login_portals v.target.iqn mapping_index (portal ∷ more))
    ]

  -- loginTarget: the paths of the devices.
  unfoldable pub login_target : GoString → Exec State (List GoString)
  unfolding login_volume
  login_target volume_id = do
    found ← on_service (always (ns.service.get_volume volume_id))
    elim found [ none ↦ fail (status not_found) | some v ↦ login_volume v ]

  -- `strings.Contains(path, "/dev/mapper") && IsMultipathEnabled()`
  unfoldable pub is_multipath : GoString → Exec State Bool
  unfolding contains is_multipath_enabled
  is_multipath path =
      if contains path (codes "/dev/mapper")
      then on_host (is_multipath_enabled ns.host ns.multipath_enabled)
      else pure false

  -- The errors of multipath_flush and of the logout are only logged.
  unfoldable pub logout_volume : K8sVolumeRespSpec → Exec State Unit
  unfolding mapping_index_of get_existed_volume_mount_path is_multipath multipath_flush logout
  logout_volume v = do
    mapping_index ← lift (mapping_index_of v.target)
    path ← on_host (get_existed_volume_mount_path ns.host v.target.iqn mapping_index)
    multipath ← is_multipath path
    (if multipath then or_value tt (on_host (multipath_flush ns.host path)) else pure tt)
    or_value tt (on_host (logout ns.host v.target.iqn))

  -- logoutTarget
  unfoldable pub logout_target : GoString → Exec State Unit
  unfolding logout_volume
  logout_target volume_id = do
    found ← on_service (always (ns.service.get_volume volume_id))
    elim found [ none ↦ pure tt | some v ↦ if is_iscsi v then logout_volume v else pure tt ]
