-- ===== src/Remote.antt =====
-- Remote destinations: the paths, the contract of a protocol's operations, and their scope.
pub mod Paths
pub mod Contract
pub mod Scoped
pub mod Endpoint
