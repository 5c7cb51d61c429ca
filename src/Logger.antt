-- ===== src/Logger.antt =====
-- examples/proxy.rs: the command line proxy, which logs its traffic.
pub mod Handlers
pub mod Domains
pub mod Main
pub mod Decision
