-- ===== src/Ca.antt =====
-- src/ca.rs: the certification authority.
pub mod Tools
pub mod Store
pub mod Forge
pub mod Cache
pub mod Threads
pub mod Overlap
pub mod Again
