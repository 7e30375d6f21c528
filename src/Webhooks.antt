-- ===== src/Webhooks.antt =====
-- webhooks/*.ts: the outgoing webhooks.
pub mod JobStore
pub mod Dispatcher
