-- ===== src/Driver.antt =====
-- pkg/driver/driver.go and utils.go: the driver, its capabilities and protocols. The messages of the CSI
-- specification are external; an enumeration is its number there.
pub mod Identity
pub mod Endpoint
pub mod Start
use reference_guides.Base.{ℕ, GoString, codes, Bool, List, [], ◌∷◌, map}
use reference_guides.Utils.{protocol_iscsi, protocol_smb, slice_contains}

abbrev pub driver_name : GoString
driver_name = codes "csi.san.synology.com"

abbrev pub driver_version : GoString
driver_version = codes "1.1.3"

-- VolumeCapability_AccessMode_Mode.
abbrev pub single_node_writer : ℕ
single_node_writer = 1

abbrev pub multi_node_multi_writer : ℕ
multi_node_multi_writer = 5

-- ControllerServiceCapability_RPC_Type and NodeServiceCapability_RPC_Type, where the names differ only
-- in what follows RPC.
pub data Rpc : Type 0 where
  create_delete_volume list_volumes expand_volume create_delete_snapshot list_snapshots
        clone_volume :
      Rpc
  get_capacity stage_unstage_volume get_volume_stats : Rpc

pub record AccessMode : Type 0 where
  pub mode : ℕ

pub record Capability : Type 0 where
  pub rpc : Rpc

pub record Driver : Type 0 where
  pub name : GoString
  pub node_id : GoString
  pub version : GoString
  pub endpoint : GoString
  pub cs_cap : List Capability
  pub v_cap : List AccessMode
  pub ns_cap : List Capability

-- addControllerServiceCapabilities
unfoldable pub add_controller_service_capabilities : List Rpc → Driver → Driver
add_controller_service_capabilities cl d = record d { cs_cap = map (λ c. record { rpc = c }) cl }

-- addVolumeCapabilityAccessModes
unfoldable pub add_volume_capability_access_modes : List ℕ → Driver → Driver
add_volume_capability_access_modes vc d = record d { v_cap = map (λ c. record { mode = c }) vc }

-- addNodeServiceCapabilities
unfoldable pub add_node_service_capabilities : List Rpc → Driver → Driver
add_node_service_capabilities nsc d = record d { ns_cap = map (λ c. record { rpc = c }) nsc }

-- NewControllerAndNodeDriver
unfoldable pub new_controller_and_node_driver : GoString → GoString → Driver
unfolding add_controller_service_capabilities add_volume_capability_access_modes
    add_node_service_capabilities
new_controller_and_node_driver node_id endpoint =
    add_node_service_capabilities (stage_unstage_volume ∷ expand_volume ∷ get_volume_stats ∷ []) (
      add_volume_capability_access_modes (single_node_writer ∷ multi_node_multi_writer ∷ []) (
        add_controller_service_capabilities
          (create_delete_volume ∷ list_volumes ∷ expand_volume ∷ create_delete_snapshot
            ∷ list_snapshots ∷ clone_volume ∷ get_capacity ∷ [])
          (record {
            name = driver_name;
            node_id = node_id;
            version = driver_version;
            endpoint = endpoint;
            cs_cap = [];
            v_cap = [];
            ns_cap = [];
          })))

-- isProtocolSupport
unfoldable pub is_protocol_support : GoString → Bool
is_protocol_support protocol = slice_contains (protocol_iscsi ∷ protocol_smb ∷ []) protocol
