-- ===== src/Server.antt =====
-- src/server.rs: what travels over the `/client` socket, what the server does with it, and which
-- connection survives.
pub mod Wire
pub mod Dispatch
pub mod Clients
pub mod Control
pub mod Tests
