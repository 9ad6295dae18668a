-- ===== src/Packet/Chunk.antt =====
-- internal/packet/path.go: ChunkRoutes, generic in what a route is.
pub mod Loop
pub mod Partition
pub mod Routes
pub mod Fit
