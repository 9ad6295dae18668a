-- ===== src/Packet.antt =====
-- internal/packet: what goes into an UPDATE and an OPEN.
pub mod Addr
pub mod Route
pub mod Caps
pub mod Types
pub mod Update
pub mod Chunk
pub mod Evpn
pub mod Samples
