-- ===== src/Store.antt =====
-- core/registry.ts, core/messages.ts and core/registry-adapter.ts over the tables of db/schema.ts.
pub mod Tables
pub mod Registry
pub mod Messages
pub mod Groups
pub mod Numbers
pub mod Log
pub mod AutoReply
pub mod Lists
