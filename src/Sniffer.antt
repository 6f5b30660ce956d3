-- ===== src/Sniffer.antt =====
-- sniffer/src: the packet sniffer in C.
pub mod Stats
pub mod Flow
pub mod Machine
pub mod UtHash
pub mod Window
pub mod Context
pub mod Parser
pub mod Kafka
pub mod System
pub mod Startup
pub mod Clock
pub mod Debug
