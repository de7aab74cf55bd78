-- ===== src/DataPlane.antt =====
-- internal/dataplane: the HTTP server.
pub mod Routes
pub mod Headers
pub mod Origin
pub mod ErrorPage
pub mod Fetch
pub mod Access
pub mod Write
pub mod Action
pub mod Functions
pub mod Serve
pub mod Server
