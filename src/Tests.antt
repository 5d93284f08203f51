-- ===== src/Tests.antt =====
-- Sample services, and runs of the program on them.
mod Wire
mod Sample
mod Auth
mod Nodes
mod Errors
mod Xray
mod Config
mod Serve
mod Router
mod Flight
mod Body
mod Main
mod Source
