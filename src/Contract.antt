-- ===== src/Contract.antt =====
-- contract/ws-events.ts and contract/api-types.ts: the events of the /ws endpoint, their parser
-- and the shapes they share with the control API.
pub mod Json
pub mod Decimal
pub mod Types
pub mod Events
pub mod Parse
