-- ===== src/Node.antt =====
-- pkg/driver/nodeserver.go, initiator.go and multipath.go: the CSI node server.
pub mod Host
pub mod Sessions
pub mod Devices
pub mod Multipath
pub mod Server
pub mod Target
pub mod Types
pub mod Mounts
pub mod Smb
pub mod Stage
pub mod Publish
pub mod Stats
pub mod Disciplined
pub mod Calm
pub mod Mounted
