-- ===== src/Tests.antt =====
-- Tests: runs at concrete inputs.
mod Instances
mod Syntax
mod Reading
mod Handling
mod Decoding
mod Certifying
mod Overlapping
mod Serving
mod Logging
mod Sessions
mod Tunnels
mod Breaking
mod Wide
mod Switching
mod Inspecting
mod Refusing
mod Forwarding
mod Printing
mod Tunneling
