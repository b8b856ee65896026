-- ===== src/Node/Smb/Source.antt =====
-- pkg/driver/nodeserver.go and pkg/dsm/service/share_volume.go: the source of a share, written by the
-- controller and read by the node.
use reference_guides.Base.{
  ℕ, GoString, codes, eqb, ◌++◌, [], ◌∷◌, split, has_prefix, Bool, true, false, ok, some, ◌≡◌, refl,
  ◌∙◌, Free, split_when-Free, split_when_at,
}
use reference_guides.Utils.{auth_type_read_write}
use reference_guides.WebApi.Types.{ShareInfo, SharePermission}
use reference_guides.WebApi.Session.{Dsm}
use reference_guides.Service.Convert.{dsm_share_to_k8s_volume}
use reference_guides.Node.Server.{NodeServer, StateOf, on_service}
use reference_guides.Node.Smb.{
  source_parts, permission_of, grant, permit_on, permit, set_smb_volume_permission,
  user_group_type_local_user,
}

abbrev is_slash : ℕ → Bool
is_slash c = eqb c b'/'

pieces :
    (host name : GoString)
    → Free is_slash host
    → Free is_slash name
    → split b'/' (host ++ (b'/' ∷ name)) ≡ host ∷ name ∷ []
pieces host name h n =
    split_when_at is_slash host name b'/' h refl ∙ rw (split_when-Free is_slash name n) refl

source_parts_read :
    (host name : GoString)
    → Free is_slash host
    → Free is_slash name
    → source_parts (codes "//" ++ (host ++ (codes "/" ++ name))) ≡ ok (host, name)
unfolding source_parts has_prefix
source_parts_read host name h n = rw (pieces host name h n, source_parts) refl

-- Write access, and nothing else.
abbrev pub read_write : GoString → SharePermission
read_write user = record {
  name = user;
  is_readonly = false;
  is_writable = true;
  is_deny = false;
  is_custom = false;
  is_admin = false;
}

-- Where neither the address of the DSM nor the name of the share has a slash, the source that
-- DsmShareToK8sVolume writes leads setSMBVolumePermission to that share: on the DSM that is registered for
-- the address it asks for write access of the local user, and nothing else.
pub set_smb_volume_permission_reaches :
    (ns : NodeServer) (dsm_ip : GoString) (info : ShareInfo) (dsm : Dsm) (user : GoString)
    (s : StateOf ns)
    → Free is_slash dsm_ip
    → Free is_slash info.name
    → ns.service.get_dsm dsm_ip ≡ some dsm
    → set_smb_volume_permission ns
        (dsm_share_to_k8s_volume dsm_ip info).source
        user
        auth_type_read_write
        s
      ≡ on_service
          (ns.service.share_permission_set
            (record {
              name = info.name;
              user_group_type = user_group_type_local_user;
              permissions = read_write user ∷ [];
            })
            dsm)
          s
unfolding set_smb_volume_permission dsm_share_to_k8s_volume permit permit_on permission_of grant
set_smb_volume_permission_reaches ns dsm_ip info dsm user s h n known =
    rw (source_parts_read dsm_ip info.name h n) (rw (known, permit) refl)
