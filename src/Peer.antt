-- ===== src/Peer.antt =====
-- internal/peer: one BGP session.
pub mod Frame
pub mod Config
pub mod Negotiate
pub mod Fsm
pub mod Loops
pub mod Send
mod Samples
mod Meeting
mod Sending
