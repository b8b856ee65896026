-- ===== src/Node/Multipath.antt =====
-- pkg/driver/multipath.go: multipathd and multipath.
use reference_guides.Base.{
  leb, GoString, codes, has_prefix, drop, Bool, true, false, ◌&&◌, ◌||◌, Option, none, some, [],
  ◌∷◌, Result, ok, err, errorf, Exec, pure, if◌then◌else◌,
}
use reference_guides.Node.Host.{Host, CommandOutput, FileError, not_exist, other_error}
use reference_guides.Node.Sessions.{command}

-- The rest of `\d+ (running|idle)`; the flag says whether a digit was read.
after_pid : Bool → GoString → Bool
after_pid seen [] = false
after_pid seen (c ∷ s) =
    let more = after_pid true s in
    if leb b'0' c && leb c b'9'
    then more
    else seen && (has_prefix (c ∷ s) (codes " running") || has_prefix (c ∷ s) (codes " idle"))

-- regexp.MatchString of `pid \d+ (running|idle)`
unfoldable pub matches_running : GoString → Bool
unfolding after_pid has_prefix
matches_running [] = false
matches_running (c ∷ s) =
    has_prefix (c ∷ s) (codes "pid ") && after_pid false (drop 4 (c ∷ s)) || matches_running s

module _ (H : Host) where
  open H use {State, run, run_within, stat}

  abbrev pub runs : CommandOutput → Bool
  runs output = elim output.error [ none ↦ matches_running output.out | some e ↦ false ]

  unfoldable pub multipathd_is_running : Exec State Bool
  unfolding matches_running
  multipathd_is_running s =
      let (output, s') = run (codes "multipathd" ∷ codes "show" ∷ codes "daemon" ∷ []) s in
      (ok (runs output), s')

  -- IsMultipathEnabled: the daemon is asked only if the option is set.
  unfoldable pub is_multipath_enabled : Bool → Exec State Bool
  unfolding multipathd_is_running
  is_multipath_enabled enabled = if enabled then multipathd_is_running else pure false

  unfoldable pub multipath_resize : GoString → Exec State Unit
  unfolding command
  multipath_resize dev_name =
      command H (codes "multipathd" ∷ codes "resize" ∷ codes "map" ∷ dev_name ∷ [])

  -- execWithTimeout fails where the limit was reached, and where the command fails.
  abbrev pub timed : Option CommandOutput → Bool
  timed none = false
  timed (some output) = elim output.error [ none ↦ true | some e ↦ false ]

  abbrev pub is_gone : Option FileError × State → Result Unit × State
  is_gone (none, s) = (err errorf, s)
  is_gone (some not_exist, s) = (ok tt, s)
  is_gone (some other_error, s) = (err errorf, s)

  -- multipath_flush: a failure counts only while the device is there.
  unfoldable pub multipath_flush : GoString → Exec State Unit
  multipath_flush dev_path s =
      let (output, s') = run_within 5 (codes "multipath" ∷ codes "-f" ∷ dev_path ∷ []) s in
      if timed output then (ok tt, s') else is_gone (stat dev_path s')
