-- ===== src/Controller.antt =====
-- pkg/driver/controllerserver.go: the controller's CSI handlers.
pub mod Types
pub mod Create
pub mod Paging
pub mod Listing
pub mod Snapshot
pub mod Fixed
