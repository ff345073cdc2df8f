-- ===== src/Extern.antt =====
-- The third-party crates that the program calls, each as a record of operations and of the
-- documented laws that the program relies on, with a concrete instance for runs.
pub mod Lenenc
pub mod MysqlPackets
pub mod Hex
pub mod Winnow
pub mod ByteOrder
pub mod Tokio
pub mod Flags
pub mod DashMap
