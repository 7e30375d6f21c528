-- ===== src/Live/GroupEvents.antt =====
-- ws/group-events.ts: what a claimed tile asks for. A session is told of what its event throws:
-- of a `LifecycleError` by the handler, of any other exception by ws/server.ts.
pub mod Confined
pub mod Kept
use comdove_fake_backend.Base.{
  if◌then◌else◌, or_else, Text, lit, text_eq, digits_only, ℕ, ◌+◌, Bool, true, false, not, Option,
  none, some, ◌++◌,
}
use comdove_fake_backend.Contract.Types.{tile, AutoReply, BusinessNumber, Customer}
use comdove_fake_backend.Contract.Events.{
  WsErrorCode, bad_request, number_not_in_group, unknown_business, tile_offline, ClientEvent,
  message_send, tile_presence, chat_read, tile_autoreply, ServerEvent, presence, auto_reply, error,
}
use comdove_fake_backend.Store.Tables.{Result, throw}
use comdove_fake_backend.Store.Registry.{get_business, get_customer, set_online}
use comdove_fake_backend.Store.Groups.{get_auto_reply, set_auto_reply}
use comdove_fake_backend.Lifecycle.{
  LifecycleError, unknown_customer_number, unknown_business_number, invalid_body, store_failed,
  Outcome, done, thrown, read,
}
use comdove_fake_backend.Live.Lock.{LockTable}
use comdove_fake_backend.Live.Feed.{send, indexed, numbers_changed}
use comdove_fake_backend.Live.Delivery.{Platform, Server, live_deps, with_feed, receive, flush_tile}

abbrev pub error_to : (session : ℕ) → WsErrorCode → (message : Text) → Server → Server
error_to i code message w = with_feed (send i (ServerEvent.error code message)) w

-- `err.message` of a `LifecycleError`; `none` for another exception.
abbrev pub lifecycle_message : LifecycleError → Option Text
lifecycle_message (unknown_customer_number from) =
    some (from ++ lit " is not a registered customer number")
lifecycle_message (unknown_business_number id) =
    some (id ++ lit " is not a registered business number")
lifecycle_message invalid_body = some (lit "body must be 1–4096 characters")
lifecycle_message (store_failed e) = none

unfoldable pub report : (session : ℕ) → LifecycleError → Server → Server
report i e w = error_to i bad_request (or_else (lifecycle_message e) (lit "internal error")) w

abbrev pub reported : {A : Type 0} → (session : ℕ) → Server × Outcome A → Server
reported i (w, done a) = w
reported i (w, thrown e) = report i e w

-- `tile`, where there is none: `number_not_in_group`.
unfoldable pub with_tile :
    (session : ℕ) → (group number : Text) → (Customer → Server → Server) → Server → Server
with_tile i g number k w =
    let refused =
      error_to i number_not_in_group (number ++ lit " is not a tile in group " ++ g) w in
    elim (get_customer number w.db) [
      | none ↦ refused
      | some c ↦ if text_eq c.group_id g then k c w else refused
    ]

-- `business`, where there is none: `unknown_business`.
unfoldable pub with_business :
    (session : ℕ) → (key : Text) → (BusinessNumber → Server → Server) → Server → Server
with_business i key k w = elim (get_business key w.db) [
  | none ↦
      error_to i WsErrorCode.unknown_business (key ++ lit " is not a registered business number") w
  | some b ↦ k b w
]

abbrev pub flushed : Server × Outcome (Unit {0}) → Server × Outcome Bool
flushed (w, done u) = (w, done true)
flushed (w, thrown e) = (w, thrown e)

module _ (p : Platform) where
  -- `setPresence`, where a session holds the group of the customer.
  unfoldable pub show_presence :
      Customer → (session : ℕ) → (online : Bool) → (now : ℕ) → Server → Server × Outcome Bool
  unfolding flush_tile
  show_presence c i true now w =
      flushed (flush_tile p c.number now (with_feed (send i (presence c.number true)) w))
  show_presence c i false now w = (with_feed (send i (presence c.number false)) w, done false)

  -- The result is whether the tile is effectively online.
  unfoldable pub set_presence :
      (number : Text) → (online : Bool) → (now : ℕ) → LockTable → Server → Server × Outcome Bool
  unfolding set_online numbers_changed indexed show_presence
  set_presence number online now locks w =
      let db = set_online number online w.db in
      let w₁ = record w { db = db; bus = numbers_changed locks db w.bus } in
      elim (get_customer number db) [
        | none ↦ (w₁, done false)
        | some c ↦ elim (indexed c.group_id w₁.bus.index) [
          | none ↦ (w₁, done false)
          | some i ↦ show_presence c i online now w₁
        ]
      ]

  -- `setAutoReply` of live.ts: what it returns is read back from the tables.
  unfoldable pub save_auto_reply :
      (number : Text) → AutoReply → LockTable → Server → Server × Outcome AutoReply
  unfolding set_auto_reply numbers_changed get_auto_reply
  save_auto_reply number ar locks w = elim (set_auto_reply number ar w.db) [
    | throw e ↦ (w, thrown (store_failed e))
    | Result.ok db ↦ (
      record w { db = db; bus = numbers_changed locks db w.bus },
      done (or_else (get_auto_reply (digits_only number) db) ar),
    )
  ]

  -- The cases of `onGroupEvent`, from the customer of the tile on.
  abbrev pub send_to_business :
      (session : ℕ) → (body : Text) → (now : ℕ) → Customer → BusinessNumber → Server → Server
  send_to_business i body now c b w =
      reported i (receive p c.number b.phone_number_id body tile now w)

  unfoldable pub send_message :
      (session : ℕ) → (to body : Text) → (now : ℕ) → Customer → Server → Server
  unfolding with_business receive report
  send_message i to body now c w =
      if not c.online
      then error_to i tile_offline (c.number ++ lit " is offline") w
      else with_business i to (send_to_business i body now c) w

  abbrev pub read_with_business :
      (session : ℕ) → (now : ℕ) → Customer → BusinessNumber → Server → Server
  read_with_business i now c b w =
      if c.online then reported i (read (live_deps p) c.number b.phone_number_id now w) else w

  unfoldable pub read_chat : (session : ℕ) → (peer : Text) → (now : ℕ) → Customer → Server → Server
  unfolding with_business report
  read_chat i peer now c w = with_business i peer (read_with_business i now c) w

  unfoldable pub toggle_presence :
      (session : ℕ) → (online : Bool) → (now : ℕ) → LockTable → Customer → Server → Server
  unfolding set_presence report
  toggle_presence i online now locks c w = reported i (set_presence c.number online now locks w)

  unfoldable pub change_auto_reply :
      (session : ℕ) → AutoReply → LockTable → Customer → Server → Server
  unfolding save_auto_reply report
  change_auto_reply i ar locks c w =
      let (w', r) = save_auto_reply c.number ar locks w in
      elim r [
        | thrown e ↦ report i e w'
        | done saved ↦ with_feed (send i (auto_reply c.number saved)) w'
      ]

  -- `onGroupEvent` of a session of group `g`.
  unfoldable pub on_group_event :
      (session : ℕ) (group : Text) → ClientEvent → (now : ℕ) → LockTable → Server → Server
  unfolding with_tile send_message read_chat toggle_presence change_auto_reply
  on_group_event i g (message_send from to body) now locks w =
      with_tile i g from (send_message i to body now) w
  on_group_event i g (chat_read number peer) now locks w =
      with_tile i g number (read_chat i peer now) w
  on_group_event i g (tile_presence number online) now locks w =
      with_tile i g number (toggle_presence i online now locks) w
  on_group_event i g (tile_autoreply number ar) now locks w =
      with_tile i g number (change_auto_reply i ar locks) w
  on_group_event i g _ now locks w = w

-- `autoReplyChanged`, for the control API.
unfoldable pub auto_reply_changed : (number : Text) → AutoReply → Server → Server
unfolding indexed
auto_reply_changed number ar w = elim (get_customer number w.db) [
  | none ↦ w
  | some c ↦ elim (indexed c.group_id w.bus.index) [
    | none ↦ w
    | some i ↦ with_feed (send i (auto_reply number ar)) w
  ]
]
