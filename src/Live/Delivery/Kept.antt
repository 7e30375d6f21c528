-- ===== src/Live/Delivery/Kept.antt =====
-- What every single change of the live engine's state keeps, core/bus.ts and core/delivery.ts keep.
use comdove_fake_backend.Base.{
  if◌then◌else◌, Bool-cases, Option-cases, is_some, is_empty, Text, ℕ, suc, ◌≡◌, refl, inl, inr,
  false, not, ◌&&◌, Option, none, some, List, [], ◌∷◌, map,
}
use comdove_fake_backend.Contract.Types.{Source, autoreply, Customer, StoredMessage, is_outbound}
use comdove_fake_backend.Contract.Events.{ServerEvent, queue_flush}
use comdove_fake_backend.Store.Tables.{Db}
use comdove_fake_backend.Store.AutoReply.{compute_reply}
use comdove_fake_backend.Store.Groups.{list_group_tiles}
use comdove_fake_backend.Store.Messages.{queued_for}
use comdove_fake_backend.Webhooks.JobStore.{Tables}
use comdove_fake_backend.Lifecycle.{
  BusEvent, message_new, message_status, log_changed, log_rejected, webhook_verify, Outcome, done,
  delivered,
}
use comdove_fake_backend.Lifecycle.Kept.{Outcome-cases, delivered-Keeps, inbound-Keeps}
use comdove_fake_backend.Live.Wire.{to_ws_message, to_rejected_log_entry}
use comdove_fake_backend.Live.Feed.{PendingReply, Feed, send, indexed}
use comdove_fake_backend.Live.Feed.Kept.{is_log_entry, Kept, broadcast-Keeps, log_has_changed-Keeps}
use comdove_fake_backend.Live.Bus.{holder_of, send_to, on_event}
use comdove_fake_backend.Live.Delivery.{
  Platform, Server, live_deps, with_feed, session_for, is_online, drawn_one, receive, auto_reply_to,
  auto_reply_all, auto_reply_due, deliver_all, deliver, deliver_tiles, deliver_queued, flush_tile,
}

module _ {I : Feed → Type 0} (k : Kept I) where
  send_to-Keeps :
      (o : Option ℕ) (ev : ServerEvent) (f : Feed)
      → is_log_entry ev ≡ false
      → I f
      → I (send_to o ev f)
  send_to-Keeps none ev f e h = h
  send_to-Keeps (some i) ev f e h = k.on_send i ev f e h

  pub on_event-Keeps :
      (e : BusEvent) (db : Db) (t : Tables) (f : Feed) → I f → I (on_event e db t f)
  unfolding on_event
  on_event-Keeps (message_new m) db t f h = elim (Bool-cases (is_outbound m.direction)) [
    | inl e ↦ rw (on_event, e) h
    | inr e ↦ rw (on_event, e) (send_to-Keeps (holder_of m.customer_number db f) _ f refl h)
  ]
  on_event-Keeps (message_status wamid number status at) db t f h =
      send_to-Keeps (holder_of number db f) _ f refl h
  on_event-Keeps (log_changed wamid) db t f h = log_has_changed-Keeps k wamid db t f h
  on_event-Keeps (log_rejected r) db t f h =
      broadcast-Keeps k (ServerEvent.log_rejected (to_rejected_log_entry r)) f refl h
  on_event-Keeps (webhook_verify passed at detail) db t f h =
      broadcast-Keeps k (ServerEvent.webhook_verify passed at detail) f refl h

  module _ (p : Platform) where
    abbrev pub Keeps : Server → Type 0
    Keeps w = I w.bus

    pub receive-Keeps :
        (from to body : Text) (source : Source) (now : ℕ) (w : Server)
        → Keeps w
        → Keeps (receive p from to body source now w).0
    unfolding receive
    receive-Keeps from to body source now w h =
        inbound-Keeps (live_deps p) I on_event-Keeps from to body source (p.new_wamid w.bus.drawn)
          now (drawn_one w) (k.on_draw (suc w.bus.drawn) w.bus h)

    pub auto_reply_to-Keeps :
        (m : StoredMessage) (now : ℕ) (w : Server) → Keeps w → Keeps (auto_reply_to p m now w)
    unfolding auto_reply_to
    auto_reply_to-Keeps m now w h =
        elim (Option-cases (compute_reply p.to_lower m.customer_number m.body w.db)) [
          | inl e ↦ rw (auto_reply_to, e) h
          | inr (r, e) ↦ rw (auto_reply_to, e) (k.on_timer _ w.bus h)
        ]

    auto_reply_all-Keeps :
        (ms : List StoredMessage) (now : ℕ) (w : Server)
        → Keeps w
        → Keeps (auto_reply_all p ms now w)
    unfolding auto_reply_all
    auto_reply_all-Keeps [] now w h = h
    auto_reply_all-Keeps (m ∷ ms) now w h =
        auto_reply_all-Keeps ms now (auto_reply_to p m now w) (auto_reply_to-Keeps m now w h)

    pub auto_reply_due-Keeps :
        (r : PendingReply) (now : ℕ) (w : Server) → Keeps w → Keeps (auto_reply_due p r now w)
    unfolding auto_reply_due
    auto_reply_due-Keeps r now w h = elim (Bool-cases (is_online r.customer w)) [
      | inl e ↦
          rw (auto_reply_due, e) (receive-Keeps r.customer r.business r.reply autoreply now w h)
      | inr e ↦ rw (auto_reply_due, e) h
    ]

    deliver_all-Keeps :
        (ms : List StoredMessage) (now : ℕ) (w : Server)
        → Keeps w
        → Keeps (deliver_all p ms now w).0
    unfolding deliver_all
    deliver_all-Keeps ms now w h =
        let s = delivered (live_deps p) ms now w in
        let h' = delivered-Keeps (live_deps p) I on_event-Keeps ms now w h in
        elim (Outcome-cases s.1) [
          | inl (u, e) ↦ rw (deliver_all, e) (auto_reply_all-Keeps ms now s.0 h')
          | inr (x, e) ↦ rw (deliver_all, e) h'
        ]

    pub deliver-Keeps :
        (m : StoredMessage) (now : ℕ) (w : Server) → Keeps w → Keeps (deliver p m now w).0
    unfolding deliver
    deliver-Keeps m now w h = elim (Bool-cases (is_outbound m.direction)) [
      | inr e ↦ rw (deliver, e) h
      | inl e ↦ elim (Option-cases (session_for m.customer_number w)) [
        | inl e₁ ↦ rw (deliver, e, e₁) h
        | inr (i, e₁) ↦
            let ev =
              ServerEvent.message_new m.customer_number m.customer_number (to_ws_message m) in
            let w₁ = with_feed (send i ev) w in
            let h' = deliver_all-Keeps (m ∷ []) now w₁ (k.on_send i ev w.bus refl h) in
            elim (Outcome-cases (deliver_all p (m ∷ []) now w₁).1) [
              | inl (u, e₂) ↦ rw (deliver, e, e₁, e₂) h'
              | inr (x, e₂) ↦ rw (deliver, e, e₁, e₂) h'
            ]
      ]
    ]

    deliver_tiles-Keeps :
        (cs : List Customer) (now : ℕ) (w : Server) → Keeps w → Keeps (deliver_tiles p cs now w).0
    unfolding deliver_tiles
    deliver_tiles-Keeps [] now w h = h
    deliver_tiles-Keeps (c ∷ cs) now w h =
        let ms = queued_for c.number w.db in
        let once : Server × Outcome (Unit {0}) =
          if is_online c.number w && not (is_empty ms)
          then deliver_all p ms now w
          else (w, done tt) in
        let h' : Keeps once.0 = elim (Bool-cases (is_online c.number w && not (is_empty ms))) [
          | inl e ↦ rw e (deliver_all-Keeps ms now w h)
          | inr e ↦ rw e h
        ] in
        elim (Outcome-cases once.1) [
          | inl (u, e) ↦ rw (deliver_tiles, e) (deliver_tiles-Keeps cs now once.0 h')
          | inr (x, e) ↦ rw (deliver_tiles, e) h'
        ]

    pub deliver_queued-Keeps :
        (g : Text) (now : ℕ) (w : Server) → Keeps w → Keeps (deliver_queued p g now w).0
    unfolding deliver_queued
    deliver_queued-Keeps g now w h = elim (Bool-cases (is_some (indexed g w.bus.index))) [
      | inl e ↦ rw (deliver_queued, e) (deliver_tiles-Keeps (list_group_tiles g w.db) now w h)
      | inr e ↦ rw (deliver_queued, e) h
    ]

    pub flush_tile-Keeps :
        (number : Text) (now : ℕ) (w : Server) → Keeps w → Keeps (flush_tile p number now w).0
    unfolding flush_tile
    flush_tile-Keeps number now w h = elim (Option-cases (session_for number w)) [
      | inl e ↦ rw (flush_tile, e) h
      | inr (i, e) ↦
          let ms = queued_for number w.db in
          let ev = queue_flush number (map to_ws_message ms) in
          elim (Bool-cases (is_empty ms)) [
            | inl e₁ ↦ rw (flush_tile, e, e₁) h
            | inr e₁ ↦
                rw (flush_tile, e, e₁)
                  (deliver_all-Keeps ms now (with_feed (send i ev) w) (k.on_send i ev w.bus refl h))
          ]
    ]
