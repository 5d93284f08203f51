-- ===== src/Routes.antt =====
-- src/routes/: the HTTP endpoints.
pub mod Extract
pub mod Handler
pub mod Stats
pub mod Routing
pub mod Body
pub mod Serve
pub mod Path
pub mod Router
