-- ===== src/Server.antt =====
-- What happens on one connection of a client: dispatch, plain HTTP, the requests of a tunnel.
pub mod Conn
pub mod Run
pub mod Outside
pub mod Host
pub mod Dispatch
pub mod Connect
pub mod Plain
pub mod Upgrade
pub mod Tunnel
pub mod Streaming
pub mod Replies
pub mod Session
pub mod Certified
pub mod Client
pub mod Untunnelled
pub mod Intercepted
pub mod Send
pub mod Relays
pub mod Blocked
pub mod Refused
pub mod Forwarded
pub mod Exchanged
pub mod Unparsable
pub mod Switched
pub mod Answers
pub mod Tunnelled
pub mod Framed
pub mod Answered
