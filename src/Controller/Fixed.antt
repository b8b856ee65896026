-- ===== src/Controller/Fixed.antt =====
-- pkg/driver/controllerserver.go: the calls that ask nothing of the service.
use reference_guides.Base.{List, status, unimplemented, Result, ok, err}
use reference_guides.Driver.{Driver, Capability}

-- ControllerGetCapabilities
unfoldable pub handle_controller_get_capabilities : Driver → Result (List Capability)
handle_controller_get_capabilities d = ok d.cs_cap

-- ControllerPublishVolume, ControllerUnpublishVolume and ControllerGetVolume
unfoldable pub handle_controller_publish_volume : Result Unit
handle_controller_publish_volume = err (status unimplemented)

unfoldable pub handle_controller_unpublish_volume : Result Unit
handle_controller_unpublish_volume = err (status unimplemented)

unfoldable pub handle_controller_get_volume : Result Unit
handle_controller_get_volume = err (status unimplemented)
