-- ===== src/Node/Smb.antt =====
-- pkg/driver/nodeserver.go: permission on a share and the options of its mount.
pub mod Source
use reference_guides.Base.{
  GoString, codes, ◌==◌, ◌/=◌, to_lower, has_prefix, trim_prefix, is_empty, split, Bool, true,
  false, ◌&&◌, ◌||◌, not, Option, none, some, List, [], ◌∷◌, ◌++◌, status, invalid_argument, Result,
  ok, err, errorf, Exec, fail, lift, ◌>>=◌, if◌then◌else◌,
}
use reference_guides.Utils.{
  AuthType, auth_type_read_write, auth_type_read_only, auth_type_no_access, other_auth_type,
}
use reference_guides.WebApi.Types.{SharePermission, SharePermissionSetSpec}
use reference_guides.WebApi.Session.{Dsm}
use reference_guides.Node.Server.{NodeServer, StateOf, on_service}

abbrev pub user_group_type_local_user : GoString
user_group_type_local_user = codes "local_user"

-- The value behind "=" where a mount flag is of the form key=value.
abbrev pub flag_value : GoString → Option GoString
flag_value flag = elim (split b'=' flag) [
  | [] ↦ none
  | key ∷ rest ↦ elim rest [
    | [] ↦ none
    | value ∷ more ↦ elim more [ [] ↦ some value | other ∷ others ↦ none ]
  ]
]

-- strings.EqualFold of ASCII text.
abbrev pub equal_fold : GoString → GoString → Bool
equal_fold s t = to_lower s == to_lower t

abbrev pub is_other_gid : GoString → Option GoString → Bool
is_other_gid group none = false
is_other_gid group (some gid) = (group /= []) && not (equal_fold group gid)

-- checkGidPresentInMountFlags, with what the flags before say.
unfoldable pub check_gid_present : GoString → Bool → List GoString → Result Bool
unfolding has_prefix
check_gid_present group present [] = ok present
check_gid_present group present (flag ∷ flags) =
    let is_gid = has_prefix flag (codes "gid") in
    let rest = check_gid_present group (is_gid || present) flags in
    if is_gid && is_other_gid group (flag_value flag) then err (status invalid_argument) else rest

abbrev pub gid_options : GoString → Bool → List GoString
gid_options group present =
    if not present && (group /= []) then (codes "gid=" ++ group) ∷ [] else []

abbrev pub domain_options : GoString → List GoString
domain_options domain = if is_empty domain then [] else (codes "domain=" ++ domain) ∷ []

abbrev pub sensitive_options : GoString → GoString → List GoString
sensitive_options username password =
    (codes "username=" ++ (username ++ (codes ",password=" ++ password))) ∷ []

-- The permission of setSMBVolumePermission.
abbrev no_permission : GoString → SharePermission
no_permission name = record {
  name = name;
  is_readonly = false;
  is_writable = false;
  is_deny = false;
  is_custom = false;
  is_admin = false;
}

unfoldable pub permission_of : GoString → AuthType → Result SharePermission
permission_of name auth_type_read_write = ok (record (no_permission name) { is_writable = true })
permission_of name auth_type_read_only = ok (record (no_permission name) { is_readonly = true })
permission_of name auth_type_no_access = ok (record (no_permission name) { is_deny = true })
permission_of name (other_auth_type t) = err errorf

-- The DSM and the share that a source path //<host>/<share> names.
unfoldable pub source_parts : GoString → Result (GoString × GoString)
unfolding has_prefix
source_parts source = elim (split b'/' (trim_prefix source (codes "//"))) [
  | [] ↦ err errorf
  | dsm_ip ∷ rest ↦ elim rest [
    | [] ↦ err errorf
    | share_name ∷ more ↦ elim more [ [] ↦ ok (dsm_ip, share_name) | other ∷ others ↦ err errorf ]
  ]
]

module _ (ns : NodeServer) where
  abbrev State : Type 0
  State = StateOf ns

  unfoldable pub grant : SharePermissionSetSpec → Dsm → Exec State Unit
  grant spec dsm = on_service (ns.service.share_permission_set spec dsm)

  unfoldable pub permit_on : GoString → GoString → AuthType → Dsm → Exec State Unit
  unfolding permission_of grant
  permit_on share_name user_name auth_type dsm = do
    permission ← lift (permission_of user_name auth_type)
    grant
        (record {
          name = share_name;
          user_group_type = user_group_type_local_user;
          permissions = permission ∷ [];
        })
        dsm

  unfoldable pub permit : GoString → GoString → GoString → AuthType → Exec State Unit
  unfolding permit_on
  permit dsm_ip share_name user_name auth_type = elim (ns.service.get_dsm dsm_ip) [
    | none ↦ fail errorf
    | some dsm ↦ permit_on share_name user_name auth_type dsm
  ]

  -- setSMBVolumePermission
  unfoldable pub set_smb_volume_permission : GoString → GoString → AuthType → Exec State Unit
  unfolding source_parts permit
  set_smb_volume_permission source_path user_name auth_type = do
    parts ← lift (source_parts source_path)
    permit parts.0 parts.1 user_name auth_type
