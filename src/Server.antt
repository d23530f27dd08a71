-- ===== src/Server.antt =====
-- pkg/server: the options of serving, the TLS configuration, and the start of the server.
pub mod Serving
pub mod Tls
pub mod Start
pub mod ApiGroups
pub mod ApiServer
pub mod Registered
pub mod Main
pub mod Run
