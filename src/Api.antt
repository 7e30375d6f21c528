-- ===== src/Api.antt =====
-- src/api: the control API over the store and the live engine.
pub mod Types
pub mod Handlers
pub mod Routers
pub mod Leaves
pub mod Refused
pub mod Limits
