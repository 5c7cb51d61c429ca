-- ===== src/Builder.antt =====
-- src/builder.rs: the handler stack, the enabled flag, the builder and the proxy that it makes.
pub mod Stack
pub mod Chain
pub mod Enabled
pub mod Proxy
pub mod Assembly
pub mod Accept
