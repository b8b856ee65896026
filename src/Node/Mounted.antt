-- ===== src/Node/Mounted.antt =====
-- pkg/driver/nodeserver.go: what the handlers do to the mounts of the host.
pub mod Tables
pub mod Rules
pub mod Publishing
pub mod Releasing
pub mod Lun
pub mod Share
pub mod Staging
pub mod Calls
