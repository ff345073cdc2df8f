-- ===== src/Server.antt =====
-- src/proxy/src/server: the forwarding of commands and their answers.
pub mod Outcome
pub mod Environment
pub mod Forwarder
pub mod Commands
pub mod Auth
pub mod Connect
mod Tests
