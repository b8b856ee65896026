-- ===== src/Tests.antt =====
-- Runs of the model at concrete data, and the theorems at that data: a DSM that holds one LUN (Fixture)
-- and a service that keeps its volumes in memory (Memory).
mod Fixture
mod Memory
mod Small
mod Volumes
mod Handlers
mod More
mod Node
mod Portals
