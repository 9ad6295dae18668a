-- ===== src/Facade.antt =====
-- bgp.go: what scripts hand to the facade, and what it makes of it.
pub mod Text
pub mod Runtime
pub mod Descriptors
pub mod Routes
pub mod Attrs
pub mod Request
pub mod Wait
pub mod Config
mod Scripts
mod Samples
