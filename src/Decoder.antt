-- ===== src/Decoder.antt =====
-- src/decoder.rs: the body decoder.
pub mod Codecs
pub mod Encodings
pub mod Order
pub mod Bodies
pub mod Messages
pub mod Effect
pub mod RoundTrip
