-- ===== src/Reader.antt =====
-- src/proxy.rs, from `read_full_response` on: the body reader over a byte stream.
pub mod Stream
pub mod Framing
pub mod Loops
pub mod Response
pub mod Drain
pub mod Fill
pub mod Dechunk
pub mod Chunked
pub mod Unique
pub mod Bodies
pub mod Heads
