-- ===== src/Lib.antt =====
-- comdove-fake-backend stands in for the WhatsApp Cloud API: a Graph API face that takes messages,
-- a store of numbers, groups and messages in SQLite, a dispatcher that posts signed webhooks, and
-- WebSocket sessions in which a tester claims a group of customers and answers for them.
--
-- The parts and their modules:
-- Contract: src/contract/ws-events.ts and src/contract/api-types.ts. Contract.Types and
-- Contract.Events hold the data that passes over the wire, Contract.Parse is parseClientEvent,
-- with one reader for each of the source's (nonEmptyString is non_empty_string, and so on). A
-- thrown FieldError is field_error. Contract.Parse.Shapes says without a parser what an event is.
-- Webhooks.JobStore: src/webhooks/job-store.ts, the interface JobStore as a record of operations
-- and its two implementations, memory_store and sqlite_store.
-- Webhooks.Dispatcher: src/webhooks/dispatcher.ts and src/webhooks/sign.ts. Types holds the state
-- of createDispatcher, Slots the synchronous part (push, pump, enqueue, cancelAll, resume and the
-- finally callback, here settle), Turns the asynchronous part: runHead and attempt are cut at
-- each await into phases, and an event is a call or the end of one wait, at a time. The store is
-- a parameter, with the laws that Order.Laws names and Stores proves of both implementations.
-- Store: src/core/registry.ts, src/core/messages.ts and src/core/registry-adapter.ts over the
-- tables of src/db/schema.ts. Tables are lists of rows in insertion order with their UNIQUE,
-- CHECK and foreign keys written out; an exception is a value of StoreError.
-- Store.Log is the log of src/core/messages.ts, Store.AutoReply is src/core/autoreply.ts.
-- Live: src/ws, src/live.ts, src/core/bus.ts and src/core/delivery.ts. A session is its number.
-- Session has the sessions of src/ws/session.ts, where SessionDeps is a record of functions on the
-- rest of the program's state, and Lock the locks. Feed is what the live engine keeps: the session
-- index, the state of src/ws/admin-feed.ts, the frames written to each socket, and the timers of
-- the automatic replies. Bus turns the lifecycle's events into frames; Delivery, GroupEvents and
-- StoreGroups follow the files of those names; Engine fills SessionDeps as src/live.ts and
-- src/ws/server.ts do. Engine.Actions lists what can happen to the running server: frames and ends
-- of sockets, timers, the requests that the Meta routes and the control API pass on, the turns of
-- the dispatcher, and resets. A timer fires as an action of its own, not before it is due.
-- Meta: src/meta/errors.ts, src/meta/ids.ts and src/meta/validate.ts, with the counter of trace
-- ids passed along.
-- Meta.Route is src/meta/messages.route.ts and src/meta/not-implemented.ts: what express.json makes
-- of the request, the answer, the state, and the message to deliver once the answer is written.
-- Api: src/api. Types has what Express hands to a handler and the answers, Handlers the handlers,
-- Routers the choice of one. An exception that a handler does not catch is an answer of its own.
-- Lifecycle: src/core/lifecycle.ts and src/webhooks/envelopes.ts over the store and the dispatcher.
-- What a call has changed before it throws stays changed; the receiver of the bus is a parameter,
-- which the live engine fills, and Dev.MemoryBus is src/dev/memory-bus.ts.
-- Live.Heartbeat is the interval of src/ws/server.ts; the close of a socket that it terminates is
-- an event of its own, which Live.Engine handles.
-- Dev.MemoryRegistry and Dev.Groups are src/dev/memory-registry.ts and src/dev/dev-groups.ts.
-- Base: helpers; Checks: the theorems at concrete inputs, and tests.
--
-- The lifecycle stores messages and queues their webhooks in the dispatcher, which writes to the
-- job store and sends them; the sessions take and release the locks, and the
-- validation reads the registry through the three functions of Lookups.
--
-- Texts are lists of UTF-16 code units; numbers are natural numbers, since ids, counts, times and
-- delays are never negative. Two functions run on fuel: the digits of a number have as much as
-- the number itself, plus one, and the while loop of the finally callback in src/webhooks/
-- dispatcher.ts has the length of the waiting list, which every round shortens.
--
-- Parameters, for code outside the repository: the HMAC digest, JSON.parse and String of a JSON
-- value, toLowerCase, Number of a text and SQLite's CAST, random ids, the clock, the network and
-- the timers (as events). Where SQL leaves the order of rows open, rows stand in insertion order.
--
-- Not modelled: GET /api/status, POST /api/webhook/verify and src/webhooks/verify.ts; close() of
-- src/ws/server.ts; Express itself, configuration and wiring. In the control API String of a JSON
-- value is taken to return; Meta.Validate has the values that it throws on.
-- The end of idle(), log lines, and the texts of thrown errors that no client sees are left out.
mod Base
pub mod Contract
pub mod Webhooks
pub mod Store
pub mod Live
pub mod Meta
pub mod Lifecycle
pub mod Dev
pub mod Api
pub mod Checks
