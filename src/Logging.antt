-- ===== src/Logging.antt =====
-- The log system.
pub mod Domain
pub mod Coordinator
pub mod Rotation
