-- ===== src/Handler.antt =====
-- src/handler.rs: bodies, messages, the handler traits and the handlers that change nothing.
pub mod Types
pub mod Noop
