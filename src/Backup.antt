-- ===== src/Backup.antt =====
-- Backup mode: the state of a backup set, its store and its retention.
pub mod SetState
pub mod Retention
pub mod Store
pub mod Identity
pub mod Confirm
pub mod Archives
pub mod Policy
pub mod Inventory
pub mod Candidate
pub mod Destination
pub mod Cycle
