-- ===== src/Service.antt =====
-- pkg/dsm/service: the volumes and snapshots of the registered DSMs.
pub mod Convert
pub mod Location
pub mod Registry
pub mod Listing
pub mod Iscsi
pub mod Smb
pub mod Volumes
pub mod Snapshots
