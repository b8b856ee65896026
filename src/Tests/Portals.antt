-- ===== src/Tests/Portals.antt =====
-- The node server's reading of portals, paths and shares.
use reference_guides.Base.{
  ℕ, pos, codes, ◌≡◌, ◌↔◌, refl, map, true, false, none, some, List, [], ◌∷◌, ok, err, errorf, ◌==◌,
  Bool, if◌then◌else◌, any, Free, eqb, is_space, GoString,
}
use reference_guides.Utils.{auth_type_read_write}
use reference_guides.Models.{K8sVolumeRespSpec}
use reference_guides.WebApi.Types.{ShareInfo}
use reference_guides.WebApi.Zero
use reference_guides.NodeService.{NodeService}
use reference_guides.Service.Convert.{dsm_share_to_k8s_volume}
use reference_guides.Controller.Types.{get_size_by_capacity_range}
use reference_guides.Node.Server.{NodeServer}
use reference_guides.Node.Sessions.{parse_sessions}
use reference_guides.Node.Sessions.Lines.{Printed, IsPlain, is_other, session}
use reference_guides.Node.Sessions.Printed.{parse_sessions-print}
use reference_guides.Node.Smb.{set_smb_volume_permission}
use reference_guides.Node.Smb.Source.{set_smb_volume_permission_reaches}
use reference_guides.Node.Stats.{NodeExpandVolumeRequest, found_volume, handle_node_expand_volume}
use reference_guides.Node.Stats.Unchecked.{IsSizeOrZero, handle_node_expand_volume-IsSizeOrZero}
use reference_guides.Node.Target.{wait_for_path}
use reference_guides.Node.Target.Waiting.{AppearsWithin, wait_for_path_iff}
use reference_guides.Tests.Fixture.{nas}
use reference_guides.Tests.Node.{host, bare}

neither : (a b : Bool) → (if a then true else b) ≡ false → (a ≡ false) × (b ≡ false)
neither true b e = cc
neither false b e = (refl, e)

Free-by : (p : ℕ → Bool) (w : GoString) → any p w ≡ false → Free p w
Free-by p [] h = tt
Free-by p (c ∷ w) h = let (here, later) = neither (p c) (any p w) h in (here, Free-by p w later)

plain :
    (p : Printed)
    → any (is_other b':' b':') p.protocol ≡ false
    → any (is_other b'[' b']') p.number ≡ false
    → any (is_other b',' b',') p.portal ≡ false
    → any is_space p.tag ≡ false
    → any (is_other b':' b':') p.vendor ≡ false
    → any (is_other b':' b':') p.name ≡ false
    → IsPlain p
plain p a b c d e f = record {
  protocol_plain = Free-by (is_other b':' b':') p.protocol a;
  number_plain = Free-by (is_other b'[' b']') p.number b;
  portal_plain = Free-by (is_other b',' b',') p.portal c;
  tag_plain = Free-by is_space p.tag d;
  vendor_plain = Free-by (is_other b':' b':') p.vendor e;
  name_plain = Free-by (is_other b':' b':') p.name f;
}

abbrev share : ShareInfo
share = record Zero.share_info { name = codes "k8s-csi-a"; uuid = codes "u" }

abbrev share_volume : K8sVolumeRespSpec
share_volume = dsm_share_to_k8s_volume (codes "10.0.0.7") share

-- A service with one volume, a share.
abbrev one_share : NodeService
one_share = record {
  State = Unit;
  get_volume = λ volume_id s. (some share_volume, s);
  get_dsm = λ dsm_ip. some nas;
  is_uc = λ dsm s. (ok false, s);
  get_another_controller = λ dsm s. (err errorf, s);
  share_permission_set = λ spec dsm s. (ok tt, s);
}

abbrev node : NodeServer
node = record { service = one_share; host = host; multipath_enabled = true }

abbrev impossible : NodeExpandVolumeRequest
impossible = record {
  volume_id = codes "u";
  volume_path = codes "/p";
  capacity_range = some (record { required_bytes = pos 10; limit_bytes = pos 5 });
  volume_capability = none;
}

expanded : (handle_node_expand_volume node impossible (tt, bare)).0 ≡ ok (pos 0)
unfolding handle_node_expand_volume found_volume ◌==◌ dsm_share_to_k8s_volume
    get_size_by_capacity_range
expanded = refl

handle_node_expand_volume-IsSizeOrZero_example :
    (v : K8sVolumeRespSpec) × ((one_share.get_volume (codes "u") tt).0 ≡ some v)
    × IsSizeOrZero impossible.capacity_range (pos 0)
handle_node_expand_volume-IsSizeOrZero_example =
    handle_node_expand_volume-IsSizeOrZero node impossible (tt, bare) (pos 0) expanded

set_smb_volume_permission_reaches_example :
    set_smb_volume_permission node share_volume.source (codes "eve") auth_type_read_write (tt, bare)
    ≡ (ok tt, (tt, bare))
set_smb_volume_permission_reaches_example =
    set_smb_volume_permission_reaches node (codes "10.0.0.7") share nas (codes "eve") (tt, bare)
      (Free-by (λ c. eqb c b'/') (codes "10.0.0.7") refl)
      (Free-by (λ c. eqb c b'/') (codes "k8s-csi-a") refl) refl

abbrev two_sessions : List Printed
two_sessions =
    (record {
      protocol = codes "tcp";
      number = codes "1";
      portal = codes "10.0.0.7:3260";
      tag = codes "1";
      vendor = codes "iqn.2000-01.com.synology";
      name = codes "nas.a";
    })
    ∷ (record {
      protocol = codes "tcp";
      number = codes "2";
      portal = codes "10.0.0.8:3260";
      tag = codes "2";
      vendor = codes "iqn.2000-01.com.synology";
      name = codes "nas.a";
    })
    ∷ []

first : IsPlain (record {
  protocol = codes "tcp";
  number = codes "1";
  portal = codes "10.0.0.7:3260";
  tag = codes "1";
  vendor = codes "iqn.2000-01.com.synology";
  name = codes "nas.a";
})
first = plain _ refl refl refl refl refl refl

second : IsPlain (record {
  protocol = codes "tcp";
  number = codes "2";
  portal = codes "10.0.0.8:3260";
  tag = codes "2";
  vendor = codes "iqn.2000-01.com.synology";
  name = codes "nas.a";
})
second = plain _ refl refl refl refl refl refl

parse_sessions-print_example :
    parse_sessions (
      codes
        "tcp: [1] 10.0.0.7:3260,1 iqn.2000-01.com.synology:nas.a (non-flash)\ntcp: [2] 10.0.0.8:3260,2 iqn.2000-01.com.synology:nas.a (non-flash)\n")
    ≡ ok (map session two_sessions)
parse_sessions-print_example = parse_sessions-print two_sessions (first, (second, tt))

wait_for_path_iff_example :
    (wait_for_path host 3 (codes "/dev/a") bare).0 ≡ ok tt
    ↔ AppearsWithin host (codes "/dev/a") 3 bare
wait_for_path_iff_example = wait_for_path_iff host (codes "/dev/a") 3 bare
