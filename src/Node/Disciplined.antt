-- ===== src/Node/Disciplined.antt =====
-- pkg/driver/initiator.go, multipath.go and nodeserver.go under a discipline that the calls of the host
-- obey: every part that mounts and unmounts nothing obeys it too.
pub mod Calls
pub mod Commands
pub mod Paths
pub mod Volumes
pub mod Logins
