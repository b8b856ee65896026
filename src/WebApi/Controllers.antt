-- ===== src/WebApi/Controllers.antt =====
-- pkg/dsm/webapi/utils.go and NetworkInterfaceList of systeminfo.go: the other controller of a DSM UC.
-- The field Controller that GetAnotherController writes is read nowhere and left out.
use reference_guides.Base.{
  ℕ, zero, suc, eqb, GoString, codes, ◌==◌, has_prefix, contains, keep, any, is_empty, Bool, false,
  ◌||◌, Option, none, some, List, [], ◌∷◌, Result, ok, err, errorf, Exec, pure, lift, ◌>>=◌,
  if◌then◌else◌,
}
use reference_guides.Utils.{lookup_ipv4}
use reference_guides.WebApi.Types.{NetworkInterface}
use reference_guides.WebApi.Network.{text, network_interfaces, Network}
use reference_guides.WebApi.Session.{Dsm, Web, entry_cgi, send_request}
use reference_guides.WebApi.Request.{request, plain_result}

abbrev is_valid_interface : NetworkInterface → Bool
is_valid_interface iface =
    contains iface.ifname (codes "eth") || contains iface.ifname (codes "bond")

-- s[:strings.LastIndex(s, ".")], and none where there is no dot.
unfoldable pub before_last_dot : GoString → Option GoString
before_last_dot [] = none
before_last_dot (c ∷ s) = elim (before_last_dot s) [
  | some t ↦ some (c ∷ t)
  | none ↦ if eqb c b'.' then some [] else none
]

-- The prefix of the next round: the last part is taken off.
abbrev pub shorter_prefix : GoString → GoString
shorter_prefix prefix = elim (before_last_dot prefix) [ none ↦ [] | some t ↦ t ]

-- `ipPrefix != "" && !strings.HasPrefix(netIf.Ip, ipPrefix)` leads to `continue`.
abbrev pub is_near : GoString → NetworkInterface → Bool
is_near prefix iface = is_empty prefix || has_prefix iface.ip prefix

-- The interfaces of the controller that is not behind `ip`.
unfoldable pub another_list :
    GoString → List NetworkInterface → List NetworkInterface → List NetworkInterface
another_list ip net_list_a net_list_b =
    if any (λ iface. iface.ip == ip) net_list_b then net_list_a else net_list_b

abbrev pub first_ip : List GoString → GoString
first_ip [] = []
first_ip (ip ∷ ips) = ip

module _ (N : Network) where
  -- NetworkInterfaceList
  unfoldable pub network_interface_list : GoString → Dsm → Exec (Web N) (List NetworkInterface)
  unfolding request contains
  network_interface_list relay_node dsm = do
    ifaces ← λ w. plain_result N (
        send_request N network_interfaces
          (request "SYNO.Core.Network.Interface" "list" "1"
            (if relay_node == [] then [] else (codes "relay_node", text relay_node) ∷ []))
          entry_cgi dsm w)
    pure (keep is_valid_interface ifaces)

  -- LookupIPv4
  unfoldable pub look_up_ipv4 : GoString → Exec (Web N) (List GoString)
  look_up_ipv4 name w =
      let (ips, net') = N.look_up_ip name w.net in (lookup_ipv4 ips, record w { net = net' })

  -- CheckIpReachable
  unfoldable pub check_ip_reachable : Dsm → NetworkInterface → Exec (Web N) Bool
  check_ip_reachable dsm iface w =
      let (up, net') = N.dial iface.ip dsm.port w.net in (ok up, record w { net = net' })

  -- A connection is tried only where the status is "connected".
  abbrev pub is_usable : Dsm → NetworkInterface → Exec (Web N) Bool
  is_usable dsm iface =
      if iface.status == codes "connected" then check_ip_reachable dsm iface else pure false

  -- The inner loop, for one prefix.
  unfoldable pub reachable_in :
      Dsm → GoString → List NetworkInterface → Exec (Web N) (Option NetworkInterface)
  reachable_in dsm prefix [] = pure none
  reachable_in dsm prefix (iface ∷ ifaces) =
      let rest = reachable_in dsm prefix ifaces in
      if is_near prefix iface
      then (do up ← is_usable dsm iface; if up then pure (some iface) else rest)
      else rest

  -- The outer loop: the prefix loses a part before each round.
  unfoldable pub reachable :
      ℕ → Dsm → GoString → List NetworkInterface → Exec (Web N) (Option NetworkInterface)
  unfolding before_last_dot
  reachable zero dsm prefix ifaces = pure none
  reachable (suc rounds) dsm prefix ifaces =
      let later = reachable rounds dsm (shorter_prefix prefix) ifaces in
      do
        found ← reachable_in dsm (shorter_prefix prefix) ifaces
        elim found [ some iface ↦ pure (some iface) | none ↦ later ]

  abbrev pub on_controller : Dsm → Option NetworkInterface → Result Dsm
  on_controller dsm none = err errorf
  on_controller dsm (some iface) = ok (record dsm { ip = iface.ip })

  -- GetAnotherController
  unfoldable pub get_another_controller : Dsm → Exec (Web N) Dsm
  unfolding network_interface_list look_up_ipv4 reachable reachable_in another_list
  get_another_controller dsm = do
    net_list_a ← network_interface_list (codes "node0") dsm
    net_list_b ← network_interface_list (codes "node1") dsm
    ips ← look_up_ipv4 dsm.ip
    found ← reachable 4 dsm (first_ip ips) (another_list (first_ip ips) net_list_a net_list_b)
    lift (on_controller dsm found)
