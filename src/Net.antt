-- ===== src/Net.antt =====
-- net: the bytes between the socket and the messages.
pub mod RingBuffer
pub mod Reassembler
pub mod Frame
pub mod Handshake
pub mod Control
mod Tests
