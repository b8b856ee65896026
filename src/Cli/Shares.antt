-- ===== src/Cli/Shares.antt =====
-- synocli/cmd/share.go: what the commands on shares ask of a DSM. The value of a command is what it prints
-- at last; cobra has counted the arguments.
use reference_guides.Base.{
  ℤ, pos, GoString, codes, ◌==◌, to_lower, is_empty, parse_int, find, any, Bool, true, false,
  Option, none, some, List, [], ◌∷◌, ◌++◌, errorf, Result, ok, err, Exec, pure, fail, lift, ◌>>=◌,
  ◌>>◌, if◌then◌else◌,
}
use reference_guides.Utils.{bytes_to_mb_ceil, string_to_boolean}
use reference_guides.WebApi.Types.{
  ShareInfo, ShareCreateSpec, ShareCloneSpec, ShareSnapshotInfo, SharePermission,
}
use reference_guides.WebApi.Zero
use reference_guides.WebApi.Network.{Network}
use reference_guides.WebApi.Session.{Dsm, Web}
use reference_guides.WebApi.Share.{
  share_get, share_list, share_create, share_clone, share_delete, share_set, share_snapshot_create,
  share_snapshot_list, share_snapshot_delete, share_permission_list, share_permission_set,
}
use reference_guides.Cli.{with_dsm}

abbrev pub or_error : {A : Type 0} → Option A → Result A
or_error none = err errorf
or_error (some a) = ok a

-- The optional size in bytes of `share create`.
abbrev pub size_of : Option GoString → Result ℤ
size_of none = ok (pos 0)
size_of (some size) = or_error (parse_int size)

unfoldable pub create_spec_of : GoString → GoString → ℤ → ShareCreateSpec
unfolding bytes_to_mb_ceil
create_spec_of name location size = record {
  name = name;
  share_info = record Zero.share_info {
    name = name;
    vol_path = location;
    desc = codes "Created by synocli";
    enable_recycle_bin = true;
    recycle_bin_admin_only = true;
    quota_for_create = some (bytes_to_mb_ceil size);
  };
}

unfoldable pub clone_spec_of :
    GoString → GoString → GoString → GoString → ShareInfo → ShareCloneSpec
clone_spec_of new_name src_name snapshot org_share_name src = record {
  name = new_name;
  snapshot = snapshot;
  share_info = record Zero.share_info {
    name = new_name;
    vol_path = src.vol_path;
    desc = codes "Cloned from " ++ (src_name ++ codes " by synocli");
    enable_recycle_bin = src.enable_recycle_bin;
    recycle_bin_admin_only = src.recycle_bin_admin_only;
    name_org = org_share_name;
  };
}

abbrev no_permission : GoString → SharePermission
no_permission name = record {
  name = name;
  is_readonly = false;
  is_writable = false;
  is_deny = false;
  is_custom = false;
  is_admin = false;
}

-- createSharePermission
unfoldable pub create_share_permission : GoString → GoString → Option SharePermission
unfolding to_lower
create_share_permission name acl =
    if to_lower acl == codes "rw"
    then some (record (no_permission name) { is_writable = true })
    else if to_lower acl == codes "ro"
    then some (record (no_permission name) { is_readonly = true })
    else if to_lower acl == codes "no"
    then some (record (no_permission name) { is_deny = true })
    else none

abbrev local_user : GoString
local_user = codes "local_user"

module _ (N : Network) where
  -- The share that has a snapshot of this time, or "".
  unfoldable pub owner_of : Dsm → GoString → List ShareInfo → Exec (Web N) GoString
  owner_of dsm time [] = pure []
  owner_of dsm time (share ∷ shares) =
      let rest = owner_of dsm time shares in
      do
        snaps ← share_snapshot_list N share.name dsm
        let owner = if any (λ snap. snap.time == time) snaps then share.name else []
        if is_empty owner then rest else pure owner

  -- shareSnapshotListAll, its loop and the choice.
  unfoldable pub snapshots_of_all : Dsm → List ShareInfo → Exec (Web N) (List ShareSnapshotInfo)
  snapshots_of_all dsm [] = pure []
  snapshots_of_all dsm (share ∷ shares) =
      let rest = snapshots_of_all dsm shares in
      do snaps ← share_snapshot_list N share.name dsm; infos ← rest; pure (snaps ++ infos)

  unfoldable pub share_snapshot_list_all : Dsm → GoString → Exec (Web N) (List ShareSnapshotInfo)
  unfolding snapshots_of_all
  share_snapshot_list_all dsm share_name =
      if is_empty share_name
      then (do shares ← share_list N dsm; snapshots_of_all dsm shares)
      else share_snapshot_list N share_name dsm

  -- getShareLocalUserPermission
  unfoldable pub get_share_local_user_permission :
      Dsm → GoString → GoString → Exec (Web N) SharePermission
  get_share_local_user_permission dsm share_name user_name = do
    infos ← share_permission_list N share_name local_user dsm
    lift (or_error (find (λ info. info.name == user_name) infos))

  module _ (clients : Result (List Dsm)) (id : ℤ) where
    unfoldable pub cmd_share_get : GoString → Exec (Web N) ShareInfo
    unfolding with_dsm share_get
    cmd_share_get name = with_dsm N clients id λ dsm. share_get N name dsm

    unfoldable pub cmd_share_create : GoString → GoString → Option GoString → Exec (Web N) ShareInfo
    unfolding with_dsm create_spec_of
    cmd_share_create name location size = with_dsm N clients id λ dsm. do
      size_in_bytes ← lift (size_of size)
      share_create N (create_spec_of name location size_in_bytes) dsm
      share_get N name dsm

    unfoldable pub cmd_share_delete : GoString → Exec (Web N) Unit
    unfolding with_dsm
    cmd_share_delete name = with_dsm N clients id λ dsm. share_delete N name dsm >> pure tt

    -- The share that a snapshot is of, where `from_snapshot` says that the source is one.
    unfoldable pub org_share_of : Dsm → Bool → GoString → Exec (Web N) GoString
    unfolding owner_of
    org_share_of dsm from_snapshot src_name =
        if from_snapshot
        then (do
          shares ← share_list N dsm
          owner ← owner_of dsm src_name shares
          if is_empty owner then fail errorf else pure owner)
        else pure src_name

    unfoldable pub cmd_share_clone : GoString → GoString → Option GoString → Exec (Web N) ShareInfo
    unfolding with_dsm org_share_of clone_spec_of
    cmd_share_clone new_name src_name is_snapshot =
        let from_snapshot : Bool = elim is_snapshot [
          | none ↦ false
          | some word ↦ word == codes "true"
        ] in
        with_dsm N clients id λ dsm. do
          org_share_name ← org_share_of dsm from_snapshot src_name
          src ← share_get N org_share_name dsm
          share_clone N
              (clone_spec_of new_name src_name (if from_snapshot then src_name else [])
                org_share_name src)
              dsm
          share_get N new_name dsm

    -- The snapshot that is printed; `none` stands for the zero value.
    unfoldable pub cmd_share_snapshot_create :
        GoString → GoString → GoString → Exec (Web N) (Option ShareSnapshotInfo)
    unfolding with_dsm string_to_boolean
    cmd_share_snapshot_create share_name desc is_lock = with_dsm N clients id λ dsm. do
      snap_time ←
          share_snapshot_create N
            (record { share_name = share_name; desc = desc; is_locked = string_to_boolean is_lock })
            dsm
      snaps ← share_snapshot_list N share_name dsm
      pure (find (λ snap. snap.time == snap_time) snaps)

    unfoldable pub cmd_share_snapshot_delete : GoString → GoString → Exec (Web N) Unit
    unfolding with_dsm
    cmd_share_snapshot_delete share_name snapshot_time =
        with_dsm N clients id λ dsm. share_snapshot_delete N snapshot_time share_name dsm >> pure tt

    unfoldable pub cmd_share_snapshot_list : GoString → Exec (Web N) (List ShareSnapshotInfo)
    unfolding with_dsm share_snapshot_list_all
    cmd_share_snapshot_list share_name =
        with_dsm N clients id λ dsm. share_snapshot_list_all dsm share_name

    unfoldable pub cmd_share_permission_list :
        GoString → Option GoString → Exec (Web N) (List SharePermission)
    unfolding with_dsm
    cmd_share_permission_list name user_group_type =
        let group : GoString = elim user_group_type [ none ↦ local_user | some g ↦ g ] in
        with_dsm N clients id λ dsm. share_permission_list N name group dsm

    unfoldable pub cmd_share_permission_set :
        GoString → GoString → GoString → Exec (Web N) SharePermission
    unfolding with_dsm create_share_permission get_share_local_user_permission
    cmd_share_permission_set share_name user_name acl = with_dsm N clients id λ dsm. do
      permission ← lift (or_error (create_share_permission user_name acl))
      share_permission_set N
          (record {
            name = share_name;
            user_group_type = local_user;
            permissions = permission ∷ [];
          })
          dsm
      get_share_local_user_permission dsm share_name user_name

    -- The share before and after.
    unfoldable pub cmd_share_set : GoString → GoString → Exec (Web N) (ShareInfo × ShareInfo)
    unfolding with_dsm bytes_to_mb_ceil
    cmd_share_set share_name new_size = with_dsm N clients id λ dsm. do
      size ← lift (or_error (parse_int new_size))
      share ← share_get N share_name dsm
      share_set N share_name
          (record {
            name = share.name;
            vol_path = share.vol_path;
            quota_for_create = some (bytes_to_mb_ceil size);
          })
          dsm
      new_share ← share_get N share_name dsm
      pure (share, new_share)
