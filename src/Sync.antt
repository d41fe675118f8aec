-- ===== src/Sync.antt =====
-- Local synchronization: the entries, the planners and the executor.
pub mod Domain
pub mod Inventory
pub mod Conflicts
pub mod Plan
pub mod Effect
pub mod Executor
pub mod Execution
pub mod Commit
pub mod Watch
pub mod Run
