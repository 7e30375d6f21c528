-- ===== src/Webhooks/Dispatcher.antt =====
-- webhooks/dispatcher.ts. A run of `runHead` is a `Task`: its phase is the `await` it is suspended
-- at. `running` holds the tasks of the current `running` set, one for each conversation in it, and
-- `orphans` those whose signal a `cancelAll` has aborted. Each function is one turn of the event
-- loop; timers, network and clock choose the turns.
pub mod QueueMap
pub mod Types
pub mod Slots
pub mod Turns
pub mod Invariant
pub mod Coverage
pub mod Settling
pub mod Loop
pub mod Scheduling
pub mod Runs
pub mod Order
pub mod Sequence
pub mod Fifo
pub mod Traces
pub mod Boot
pub mod Stores
