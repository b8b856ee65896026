-- ===== src/WebApi.antt =====
-- pkg/dsm/webapi: the client of the web API of a DSM.
pub mod Types
pub mod Zero
pub mod Network
pub mod Session
pub mod Errors
pub mod Request
pub mod Iscsi
pub mod Storage
pub mod Share
pub mod Controllers
