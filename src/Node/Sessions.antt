-- ===== src/Node/Sessions.antt =====
-- pkg/driver/initiator.go: iscsiadm, the sessions that it lists, login, logout and rescan. The fields
-- chapUser and chapPassword of the initiator are read nowhere.
pub mod Lines
pub mod Printed
use reference_guides.Base.{
  ℤ, GoString, codes, ◌==◌, split, fields, trim, is_space, is_empty, without, parse_int32, keep,
  any, Bool, ◌&&◌, ◌||◌, none, some, List, [], ◌∷◌, ◌++◌, Result, ok, err, errorf,
  index_out_of_range, Exec, fail, pure, attempt, ◌>>=◌, ◌>>◌, if◌then◌else◌,
}
use reference_guides.Node.Host.{Host, CommandOutput}

pub record IscsiSession : Type 0 where
  pub protocol : GoString
  pub id : ℤ
  pub portal : GoString
  pub iqn : GoString
  pub name : GoString

abbrev pub iscsi_port : GoString
iscsi_port = codes "3260"

-- `ip:3260`
abbrev pub portal_of : GoString → GoString
portal_of ip = ip ++ (b':' ∷ iscsi_port)

-- The first piece of strings.Split, which always has one.
abbrev pub first_piece : List GoString → GoString
first_piece [] = []
first_piece (w ∷ ws) = w

-- The session of an entry's words and of the pieces of its IQN, of which `[1]` is the name.
unfoldable pub session_named :
    GoString → GoString → GoString → GoString → List GoString → Result IscsiSession
session_named protocol id portal iqn [] = err index_out_of_range
session_named protocol id portal iqn (w ∷ []) = err index_out_of_range
session_named protocol id portal iqn (w ∷ name ∷ more) = ok (record {
  protocol = first_piece (split b':' protocol);
  id = parse_int32 (without b'[' b']' id);
  portal = first_piece (split b',' portal);
  iqn = iqn;
  name = name;
})

unfoldable pub session_of : GoString → GoString → GoString → GoString → Result IscsiSession
unfolding session_named
session_of protocol id portal iqn = session_named protocol id portal iqn (split b':' iqn)

abbrev pub onto_sessions :
    Result IscsiSession → Result (List IscsiSession) → Result (List IscsiSession)
onto_sessions (err e) rest = err e
onto_sessions (ok s) (err e) = err e
onto_sessions (ok s) (ok ss) = ok (s ∷ ss)

-- One round of the loop, given the sessions of the entries that follow. An entry of fewer than four
-- words is passed over.
unfoldable pub parse_entry : List GoString → Result (List IscsiSession) → Result (List IscsiSession)
unfolding session_of
parse_entry (protocol ∷ id ∷ portal ∷ iqn ∷ more) rest =
    onto_sessions (session_of protocol id portal iqn) rest
parse_entry _ rest = rest

unfoldable pub parse_entries : List GoString → Result (List IscsiSession)
unfolding parse_entry
parse_entries [] = ok []
parse_entries (entry ∷ entries) = parse_entry (fields entry) (parse_entries entries)

-- parseSessions
unfoldable pub parse_sessions : GoString → Result (List IscsiSession)
unfolding parse_entries
parse_sessions lines = parse_entries (split b'\n' (trim is_space lines))

module _ (H : Host) where
  open H use {State, run}

  -- iscsiadm_session: where the command fails there are no sessions.
  abbrev pub sessions_in : CommandOutput → Result (List IscsiSession)
  sessions_in output = elim output.error [ none ↦ parse_sessions output.out | some e ↦ ok [] ]

  unfoldable pub iscsiadm_session : Exec State (List IscsiSession)
  unfolding parse_sessions
  iscsiadm_session s =
      let (output, s') = run (codes "iscsiadm" ∷ codes "-m" ∷ codes "session" ∷ []) s in
      (sessions_in output, s')

  -- A command of which only the error is looked at.
  abbrev pub succeeded : CommandOutput → Result Unit
  succeeded output = elim output.error [ none ↦ ok tt | some e ↦ err errorf ]

  unfoldable pub command : List GoString → Exec State Unit
  command args s = let (output, s') = run args s in (succeeded output, s')

  unfoldable pub iscsiadm_discovery : GoString → Exec State Unit
  unfolding command
  iscsiadm_discovery portal = command (
      codes "iscsiadm"
      ∷ codes "-m"
      ∷ codes "discoverydb"
      ∷ codes "--type"
      ∷ codes "sendtargets"
      ∷ codes "--portal"
      ∷ portal
      ∷ codes "--discover"
      ∷ [])

  unfoldable pub iscsiadm_login : GoString → GoString → Exec State Unit
  unfolding command
  iscsiadm_login iqn portal = command (
      codes "iscsiadm"
      ∷ codes "-m"
      ∷ codes "node"
      ∷ codes "--targetname"
      ∷ iqn
      ∷ codes "--portal"
      ∷ portal
      ∷ codes "--login"
      ∷ [])

  unfoldable pub iscsiadm_update_node_startup : GoString → GoString → Exec State Unit
  unfolding command
  iscsiadm_update_node_startup iqn portal = command (
      codes "iscsiadm"
      ∷ codes "-m"
      ∷ codes "node"
      ∷ codes "--targetname"
      ∷ iqn
      ∷ codes "--portal"
      ∷ portal
      ∷ codes "--op"
      ∷ codes "update"
      ∷ codes "--name"
      ∷ codes "node.startup"
      ∷ codes "--value"
      ∷ codes "manual"
      ∷ [])

  unfoldable pub iscsiadm_logout : GoString → Exec State Unit
  unfolding command
  iscsiadm_logout iqn = command (
      codes "iscsiadm"
      ∷ codes "-m"
      ∷ codes "node"
      ∷ codes "--targetname"
      ∷ iqn
      ∷ codes "--logout"
      ∷ [])

  unfoldable pub iscsiadm_rescan : GoString → Exec State Unit
  unfolding command
  iscsiadm_rescan iqn =
      command (
        codes "iscsiadm" ∷ codes "-m" ∷ codes "node" ∷ codes "--targetname" ∷ iqn ∷ codes "-R" ∷ [])

  abbrev pub is_session : GoString → GoString → IscsiSession → Bool
  is_session target_iqn portal s = target_iqn == s.iqn && (portal == s.portal || is_empty portal)

  -- hasSession
  unfoldable pub has_session : GoString → GoString → Exec State Bool
  unfolding iscsiadm_session
  has_session target_iqn portal = do
    sessions ← iscsiadm_session
    pure (any (is_session target_iqn portal) sessions)

  -- listSessionsByIqn
  unfoldable pub list_sessions_by_iqn : GoString → Exec State (List IscsiSession)
  unfolding iscsiadm_session
  list_sessions_by_iqn target_iqn = do
    sessions ← iscsiadm_session
    pure (keep (λ s. target_iqn == s.iqn) sessions)

  -- login: a failure to update the startup mode is only logged.
  unfoldable pub login : GoString → GoString → Exec State Unit
  unfolding has_session iscsiadm_discovery iscsiadm_login iscsiadm_update_node_startup
  login target_iqn portal = do
    there ← has_session target_iqn portal
    if there then pure tt else (do
      iscsiadm_discovery portal
      iscsiadm_login target_iqn portal
      attempt (iscsiadm_update_node_startup target_iqn portal) >> pure tt)

  -- logout; the portal that it is given serves its log only.
  unfoldable pub logout : GoString → Exec State Unit
  unfolding has_session iscsiadm_logout
  logout target_iqn = do
    there ← has_session target_iqn []
    if there then iscsiadm_logout target_iqn else pure tt

  -- rescan
  unfoldable pub rescan : GoString → Exec State Unit
  unfolding has_session iscsiadm_rescan
  rescan target_iqn = do
    there ← has_session target_iqn []
    if there then iscsiadm_rescan target_iqn else fail errorf
