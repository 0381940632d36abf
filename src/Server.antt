-- ===== src/Server.antt =====
-- internal/server/server.go: the connections of clients and the handling of their requests.
pub mod Connections
pub mod Services
pub mod Checksum
pub mod Handlers
pub mod RunMethod
pub mod Limits
pub mod Dispatch
pub mod Requests
pub mod Sample
pub mod Start
