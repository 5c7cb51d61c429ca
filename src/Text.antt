-- ===== src/Text.antt =====
-- The parts of Rust's `str` and `[u8]` that the proxy uses: bytes, strings as lists of code points,
-- searching, splitting, trimming, lower case, numbers. Nothing here is the proxy's own code.
mod Defs
pub mod Ascii
pub mod Search
pub mod Equal
pub mod Lines
pub mod Decimal
unfoldable pub use Defs.*
