-- ===== src/Checks.antt =====
-- Concrete inputs at which the theorems of the other modules apply, and tests of definitions.
mod Dispatching
mod Parsing
mod Storing
mod Sockets
mod Sending
mod Messaging
mod Serving
mod Logging
mod Controlling
mod Standins
