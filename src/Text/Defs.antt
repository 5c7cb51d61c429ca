-- ===== src/Text/Defs.antt =====
-- Definitions of the standard library's text functions, as far as the proxy calls them.
mod Utf8
mod Split
mod Number
unfoldable pub use Utf8.*
unfoldable pub use Split.*
unfoldable pub use Number.*
