-- ===== src/Inspector.antt =====
-- examples/test_app: the demonstration application on top of the proxy.
pub mod Clock
pub mod Daytime
pub mod Traffic
pub mod Web
pub mod Requests
pub mod Frames
pub mod Dashboard
pub mod Triggers
pub mod Mock
pub mod Main
pub mod Window
pub mod Recent
pub mod Pending
pub mod Exchange
pub mod Toggle
