-- ===== src/Dev.antt =====
-- src/dev: the stand-ins for parts of the server.
pub mod MemoryBus
pub mod MemoryRegistry
pub mod Groups
