-- ===== src/Protocol.antt =====
-- src/proxy/src/protocol/mysql: packets, their reader and writer.
pub mod Packet
pub mod Writer
pub mod Reader
pub mod Errors
pub mod Charset
pub mod Writers
mod Tests
pub mod Constants
pub mod Basic
pub mod Link
