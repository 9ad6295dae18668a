-- ===== src/Coord.antt =====
-- internal/coord/barrier.go and barrier.go: the rendezvous of the VUs, and its registry.
pub mod Barrier
pub mod Registry
mod Samples
