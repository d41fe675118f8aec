-- ===== src/Config.antt =====
-- The configuration: its domain, its document, and the questions that build it.
pub mod Domain
pub mod Codec
pub mod Answers
pub mod Interactive
pub mod Store
pub mod Ownership
pub mod Service
