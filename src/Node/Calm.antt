-- ===== src/Node/Calm.antt =====
-- pkg/driver/nodeserver.go: where the node server does not panic.
pub mod Output
pub mod Tidy
pub mod Handlers
