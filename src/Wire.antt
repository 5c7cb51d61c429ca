-- ===== src/Wire.antt =====
-- HTTP/1.1 messages as bytes: read, printed, and printed and read again.
pub mod Syntax
pub mod Parse
pub mod Malformed
pub mod Serialize
pub mod Blank
pub mod Laws
pub mod HeaderLines
pub mod RoundTrip
pub mod Responses
pub mod Switching
