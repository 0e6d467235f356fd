-- ===== src/Reorder.antt =====
-- The reorder engine: its configuration, packet parsing, ring and flows.
pub mod Packet
pub mod Config
pub mod Ring
pub mod Flow
pub mod Receive
pub mod Life
mod Tests
pub mod Send
pub mod Buckets
pub mod Receiver
