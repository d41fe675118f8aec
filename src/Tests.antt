-- ===== src/Tests.antt =====
-- The theorems at concrete data.
pub mod BackupData
pub mod SyncData
pub mod ConfigData
pub mod Services
pub mod Quiet
pub mod Runs
pub mod BackupRuns
pub mod RemoteData
pub mod ServiceRuns
