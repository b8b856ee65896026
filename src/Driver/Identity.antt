-- ===== src/Driver/Identity.antt =====
-- pkg/driver/identityserver.go: the identity server.
use reference_guides.Base.{
  GoString, is_empty, List, [], ◌∷◌, status, unavailable, Result, ok, err, if◌then◌else◌,
}
use reference_guides.Driver.{Driver}

pub record PluginInfo : Type 0 where
  pub name : GoString
  pub vendor_version : GoString

-- PluginCapability_Service_Type
pub data PluginService : Type 0 where
  unknown_service controller_service volume_accessibility_constraints : PluginService

-- GetPluginInfo
unfoldable pub handle_get_plugin_info : Driver → Result PluginInfo
handle_get_plugin_info d =
    if is_empty d.name
    then err (status unavailable)
    else if is_empty d.version
    then err (status unavailable)
    else ok (record { name = d.name; vendor_version = d.version })

-- Probe
unfoldable pub handle_probe : Driver → Result Unit
handle_probe d = ok tt

-- GetPluginCapabilities
unfoldable pub handle_get_plugin_capabilities : Driver → Result (List PluginService)
handle_get_plugin_capabilities d = ok (controller_service ∷ [])
