-- ===== src/Node/Disciplined/Commands.antt =====
-- pkg/driver/initiator.go and multipath.go: the commands of iscsiadm and multipath under a discipline.
use reference_guides.Base.{
  GoString, codes, Bool, true, false, Option, none, some, List, [], ◌∷◌, errorf, Result, ok, err,
  if◌then◌else◌, Discipline, IsFine, Meets, disciplined,
}
use reference_guides.Node.Host.{
  Host, CommandError, CommandOutput, FileError, not_exist, other_error,
}
use reference_guides.Node.Sessions.{
  iscsiadm_session, succeeded, command, has_session, list_sessions_by_iqn, login, logout, rescan,
  iscsiadm_discovery, iscsiadm_login, iscsiadm_update_node_startup, iscsiadm_logout,
  iscsiadm_rescan,
}
use reference_guides.Node.Multipath.{
  multipathd_is_running, is_multipath_enabled, multipath_resize, multipath_flush, timed, is_gone,
}
use reference_guides.Node.Disciplined.Calls.{HostMeets}

module _ (H : Host) (D : Discipline H.State) (M : HostMeets H D) where
  iscsiadm_session-Meets : Meets D (iscsiadm_session H)
  unfolding iscsiadm_session
  iscsiadm_session-Meets = record {
    follows = λ s. M.run_follows (codes "iscsiadm" ∷ codes "-m" ∷ codes "session" ∷ []) s;
    fine = M.sessions_fine;
  }

  succeeded-IsFine : (output : CommandOutput) → IsFine D (succeeded H output)
  succeeded-IsFine output = go output.error
    where
      go :
          (e : Option CommandError)
          → IsFine D (elim e as (λ x. Result Unit) [ none ↦ ok tt | some x ↦ err errorf ])
      go none = tt
      go (some e) = D.fine_errorf

  pub command-Meets : (args : List GoString) → Meets D (command H args)
  unfolding command
  command-Meets args = record {
    follows = λ s. M.run_follows args s;
    fine = λ s. succeeded-IsFine (H.run args s).0;
  }

  has_session-Meets : (iqn portal : GoString) → Meets D (has_session H iqn portal)
  unfolding has_session
  has_session-Meets iqn portal = search (disciplined, iscsiadm_session-Meets)

  pub list_sessions_by_iqn-Meets : (iqn : GoString) → Meets D (list_sessions_by_iqn H iqn)
  unfolding list_sessions_by_iqn
  list_sessions_by_iqn-Meets iqn = search (disciplined, iscsiadm_session-Meets)

  pub login-Meets : (iqn portal : GoString) → Meets D (login H iqn portal)
  unfolding login iscsiadm_discovery iscsiadm_login iscsiadm_update_node_startup
  login-Meets iqn portal = search (disciplined, has_session-Meets, command-Meets) depth 12

  pub logout-Meets : (iqn : GoString) → Meets D (logout H iqn)
  unfolding logout iscsiadm_logout
  logout-Meets iqn = search (disciplined, has_session-Meets, command-Meets)

  pub rescan-Meets : (iqn : GoString) → Meets D (rescan H iqn)
  unfolding rescan iscsiadm_rescan
  rescan-Meets iqn = search (disciplined, has_session-Meets, command-Meets)

  multipathd_is_running-Meets : Meets D (multipathd_is_running H)
  unfolding multipathd_is_running
  multipathd_is_running-Meets = record {
    follows = λ s. M.run_follows (codes "multipathd" ∷ codes "show" ∷ codes "daemon" ∷ []) s;
    fine = λ s. tt;
  }

  pub is_multipath_enabled-Meets : (enabled : Bool) → Meets D (is_multipath_enabled H enabled)
  unfolding is_multipath_enabled
  is_multipath_enabled-Meets enabled = search (disciplined, multipathd_is_running-Meets)

  pub multipath_resize-Meets : (name : GoString) → Meets D (multipath_resize H name)
  unfolding multipath_resize
  multipath_resize-Meets name =
      command-Meets (codes "multipathd" ∷ codes "resize" ∷ codes "map" ∷ name ∷ [])

  is_gone-follows :
      (e : Option FileError) (s t : H.State) → D.Follows s t → D.Follows s (is_gone H (e, t)).1
  is_gone-follows none s t h = h
  is_gone-follows (some not_exist) s t h = h
  is_gone-follows (some other_error) s t h = h

  is_gone-IsFine : (e : Option FileError) (s : H.State) → IsFine D (is_gone H (e, s)).0
  is_gone-IsFine none s = D.fine_errorf
  is_gone-IsFine (some not_exist) s = tt
  is_gone-IsFine (some other_error) s = D.fine_errorf

  pub multipath_flush-Meets : (path : GoString) → Meets D (multipath_flush H path)
  unfolding multipath_flush
  multipath_flush-Meets path = record {
    follows = λ s. after s (timed H (ran s).0);
    fine = λ s. ended s (timed H (ran s).0);
  }
    where
      ran : H.State → Option CommandOutput × H.State
      ran s = H.run_within 5 (codes "multipath" ∷ codes "-f" ∷ path ∷ []) s

      after :
          (s : H.State) (b : Bool)
          → D.Follows s (if b then (ok tt, (ran s).1) else is_gone H (H.stat path (ran s).1)).1
      after s true = M.run_within_follows 5 (codes "multipath" ∷ codes "-f" ∷ path ∷ []) s
      after s false = is_gone-follows (H.stat path (ran s).1).0 s (H.stat path (ran s).1).1 (
          D.joins s (ran s).1 (H.stat path (ran s).1).1
            (M.run_within_follows 5 (codes "multipath" ∷ codes "-f" ∷ path ∷ []) s)
            (M.stat_follows path (ran s).1))

      ended :
          (s : H.State) (b : Bool)
          → IsFine D (if b then (ok tt, (ran s).1) else is_gone H (H.stat path (ran s).1)).0
      ended s true = tt
      ended s false = is_gone-IsFine (H.stat path (ran s).1).0 (H.stat path (ran s).1).1
