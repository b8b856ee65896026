-- ===== src/Driver/Start.antt =====
-- main.go: the start of the driver and its end. The file of the clients is read outside.
use reference_guides.Base.{GoString, List, [], ◌∷◌, Result, ok, err, Exec}
use reference_guides.WebApi.Session.{Dsm}
use reference_guides.Backend.{Backend}
use reference_guides.Service.Registry.{Dsms, add_dsm, remove_all_dsms}
use reference_guides.Driver.{Driver, new_controller_and_node_driver}

module _ (B : Backend) where
  open B use {State}

  -- The loop over the clients of the file: a client that cannot be added is only logged.
  unfoldable pub add_clients : List Dsm → Dsms → State → Dsms × State
  unfolding add_dsm
  add_clients [] dsms s = (dsms, s)
  add_clients (client ∷ clients) dsms s =
      let (added, s') = add_dsm B dsms client s in
      elim added [ ok dsms' ↦ add_clients clients dsms' s' | err e ↦ add_clients clients dsms s' ]

  -- driverStart up to the signal: the driver and the DSMs that it has.
  unfoldable pub driver_start : Result (List Dsm) → GoString → GoString → Exec State (Driver × Dsms)
  unfolding add_clients new_controller_and_node_driver
  driver_start (err e) node_id endpoint s = (err e, s)
  driver_start (ok clients) node_id endpoint s =
      let (dsms, s') = add_clients clients [] s in
      (ok (new_controller_and_node_driver node_id endpoint, dsms), s')

  -- What is deferred until the signal.
  unfoldable pub driver_stop : Dsms → State → State
  unfolding remove_all_dsms
  driver_stop dsms s = remove_all_dsms B dsms s
