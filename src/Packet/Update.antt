-- ===== src/Packet/Update.antt =====
-- internal/packet/path.go: BuildUpdateMessage and the path attributes that it builds.
pub mod Attrs
pub mod Build
pub mod Laws
