-- ===== src/Live.antt =====
-- The WebSocket side: src/ws, live.ts, core/bus.ts and core/delivery.ts.
pub mod Heartbeat
pub mod Lock
pub mod Session
pub mod Wire
pub mod Feed
pub mod Bus
pub mod Delivery
pub mod GroupEvents
pub mod StoreGroups
pub mod Engine
