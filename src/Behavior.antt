-- ===== src/Behavior.antt =====
-- internal/behavior: what stands between host routing and the origin fetch.
pub mod Select
pub mod Forward
pub mod Compress
pub mod Response
pub mod Viewer
