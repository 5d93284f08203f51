-- ===== src/Extern.antt =====
-- What the program calls and does not implement, as interfaces.
pub mod Unicode
pub mod Http
pub mod Lru
pub mod Transport
pub mod Codec
