-- ===== src/Xray.antt =====
-- src/xray/: the calls of a node's services.
pub mod Account
pub mod Handler
pub mod Stats
pub mod Routing
