-- ===== src/Meta.antt =====
-- The Graph API face: meta/errors.ts, meta/ids.ts and meta/validate.ts.
pub mod Errors
pub mod Validate
pub mod Route
