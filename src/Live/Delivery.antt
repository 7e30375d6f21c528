-- ===== src/Live/Delivery.antt =====
-- core/delivery.ts over the lifecycle. What a call has changed before it throws stays changed.
pub mod Kept
pub mod Online
use comdove_fake_backend.Base.{
  if◌then◌else◌, is_some, is_empty, Text, ℕ, suc, ◌+◌, Bool, true, false, not, ◌&&◌, Option, none,
  some, List, [], ◌∷◌, ◌++◌, map,
}
use comdove_fake_backend.Contract.Types.{Source, autoreply, Customer, StoredMessage, is_outbound}
use comdove_fake_backend.Contract.Events.{ServerEvent, queue_flush}
use comdove_fake_backend.Contract.Json.{Json}
use comdove_fake_backend.Store.Registry.{get_customer}
use comdove_fake_backend.Store.Messages.{queued_for}
use comdove_fake_backend.Store.Groups.{list_group_tiles}
use comdove_fake_backend.Store.AutoReply.{compute_reply}
use comdove_fake_backend.Webhooks.Dispatcher.Types.{Options}
use comdove_fake_backend.Lifecycle.{
  message_new, World, LifecycleDeps, Outcome, done, thrown, delivered, inbound,
}
use comdove_fake_backend.Live.Wire.{to_ws_message}
use comdove_fake_backend.Live.Feed.{PendingReply, Feed, send, indexed}
use comdove_fake_backend.Live.Bus.{on_event}

-- What the program is configured with, and what it takes from its platform: `to_lower` is
-- `toLowerCase`, `stringify` is `JSON.stringify`, and `new_wamid n` is the n-th random id.
pub record Platform : Type 0 where
  pub to_lower : Text → Text
  pub stringify : Json → Text
  pub new_wamid : ℕ → Text
  pub options : Options
  pub status_delay : ℕ

-- The store, the dispatcher and the live engine.
abbrev pub Server : Type 0
Server = World Feed

-- The lifecycle that emits on the live bus.
abbrev pub live_deps : Platform → LifecycleDeps Feed
live_deps p = record {
  on_event = on_event;
  stringify = p.stringify;
  options = p.options;
  status_delay = p.status_delay;
}

abbrev pub with_feed : (Feed → Feed) → Server → Server
with_feed f w = record w { bus = f w.bus }

-- `sessionFor`: the session showing this tile, if the tile is effectively online.
unfoldable pub session_for : (number : Text) → Server → Option ℕ
unfolding indexed
session_for number w = elim (get_customer number w.db) [
  | none ↦ none
  | some c ↦ if c.online then indexed c.group_id w.bus.index else none
]

unfoldable pub is_online : (number : Text) → Server → Bool
unfolding session_for
is_online number w = is_some (session_for number w)

-- A call of `lifecycle.inbound` draws an id, which is left unused where it stores nothing.
abbrev pub drawn_one : Server → Server
drawn_one w = with_feed (λ f. record f { drawn = suc f.drawn }) w

module _ (p : Platform) where
  unfoldable pub receive :
      (from to body : Text) → Source → (now : ℕ) → Server → Server × Outcome StoredMessage
  receive from to body source now w =
      inbound (live_deps p) from to body source (p.new_wamid w.bus.drawn) now (drawn_one w)

  -- `autoReply`: the timer that it sets, if it sets one.
  unfoldable pub auto_reply_to : StoredMessage → (now : ℕ) → Server → Server
  unfolding compute_reply
  auto_reply_to m now w = elim (compute_reply p.to_lower m.customer_number m.body w.db) [
    | none ↦ w
    | some r ↦
        with_feed
          (λ f. record f {
            replies =
                f.replies
                ++ record {
                  customer = m.customer_number;
                  business = m.phone_number_id;
                  reply = r.0;
                  due = now + r.1;
                }
                  ∷ [];
          })
          w
  ]

  unfoldable pub auto_reply_all : List StoredMessage → (now : ℕ) → Server → Server
  unfolding auto_reply_to
  auto_reply_all [] now w = w
  auto_reply_all (m ∷ ms) now w = auto_reply_all ms now (auto_reply_to m now w)

  -- The callback of the timer, whose failure is only logged.
  unfoldable pub auto_reply_due : PendingReply → (now : ℕ) → Server → Server
  unfolding is_online receive
  auto_reply_due r now w =
      if is_online r.customer w
      then (receive r.customer r.business r.reply autoreply now w).0
      else w

  -- `delivered`, then `autoReply` for each message.
  unfoldable pub deliver_all : List StoredMessage → (now : ℕ) → Server → Server × Outcome (Unit {0})
  unfolding auto_reply_all
  deliver_all ms now w =
      let (w', r) = delivered (live_deps p) ms now w in
      elim r [ thrown e ↦ (w', thrown e) | done u ↦ (auto_reply_all ms now w', done tt) ]

  -- The result is whether the message is delivered; otherwise it is queued.
  unfoldable pub deliver : StoredMessage → (now : ℕ) → Server → Server × Outcome Bool
  unfolding session_for deliver_all
  deliver m now w =
      if not (is_outbound m.direction)
      then (w, done false)
      else elim (session_for m.customer_number w) [
        | none ↦ (w, done false)
        | some i ↦
            let (w', r) = deliver_all (m ∷ []) now (
              with_feed
                (send i
                  (ServerEvent.message_new m.customer_number m.customer_number (to_ws_message m)))
                w) in
            elim r [ thrown e ↦ (w', thrown e) | done u ↦ (w', done true) ]
      ]

  -- The loop of `deliverQueued`.
  unfoldable pub deliver_tiles : List Customer → (now : ℕ) → Server → Server × Outcome (Unit {0})
  unfolding is_online deliver_all queued_for
  deliver_tiles [] now w = (w, done tt)
  deliver_tiles (c ∷ cs) now w =
      let ms = queued_for c.number w.db in
      let (w', r) =
        if is_online c.number w && not (is_empty ms) then deliver_all ms now w else (w, done tt) in
      let rest = deliver_tiles cs now w' in elim r [ thrown e ↦ (w', thrown e) | done u ↦ rest ]

  unfoldable pub deliver_queued : (group : Text) (now : ℕ) → Server → Server × Outcome (Unit {0})
  unfolding deliver_tiles list_group_tiles indexed
  deliver_queued g now w =
      if is_some (indexed g w.bus.index)
      then deliver_tiles (list_group_tiles g w.db) now w
      else (w, done tt)

  unfoldable pub flush_tile : (number : Text) (now : ℕ) → Server → Server × Outcome (Unit {0})
  unfolding session_for deliver_all queued_for
  flush_tile number now w = elim (session_for number w) [
    | none ↦ (w, done tt)
    | some i ↦
        let ms = queued_for number w.db in
        if is_empty ms
        then (w, done tt)
        else deliver_all ms now (with_feed (send i (queue_flush number (map to_ws_message ms))) w)
  ]
