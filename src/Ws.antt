-- ===== src/Ws.antt =====
-- src/ws_proxy.rs: WebSocket upgrades and the relays between two peers.
pub mod Detect
pub mod Relay
pub mod Passed
