-- ===== src/Live/GroupEvents/Kept.antt =====
-- What every single change of the live engine's state keeps, ws/group-events.ts keeps.
use comdove_fake_backend.Base.{
  Bool-cases, Option-cases, or_else, Text, lit, text_eq, ℕ, refl, inl, inr, Bool, true, false, ◌++◌,
}
use comdove_fake_backend.Contract.Types.{tile, AutoReply, BusinessNumber, Customer}
use comdove_fake_backend.Contract.Events.{
  WsErrorCode, bad_request, number_not_in_group, tile_offline, ClientEvent, group_claim,
  message_send, tile_presence, chat_read, tile_autoreply, admin_subscribe, ServerEvent, presence,
  auto_reply,
}
use comdove_fake_backend.Store.Groups.{set_auto_reply}
use comdove_fake_backend.Store.Registry.{get_business, get_customer, set_online}
use comdove_fake_backend.Lifecycle.{LifecycleError, Outcome, done, thrown, read}
use comdove_fake_backend.Lifecycle.Kept.{Outcome-cases, Result-cases, read-Keeps}
use comdove_fake_backend.Live.Lock.{LockTable}
use comdove_fake_backend.Live.Feed.{Feed, send, indexed, numbers_changed}
use comdove_fake_backend.Live.Feed.Kept.{Kept, numbers_changed-Keeps}
use comdove_fake_backend.Live.Delivery.{Platform, Server, live_deps, with_feed, receive, flush_tile}
use comdove_fake_backend.Live.Delivery.Kept.{on_event-Keeps, receive-Keeps, flush_tile-Keeps}
use comdove_fake_backend.Live.GroupEvents.{
  show_presence, read_with_business, send_to_business, error_to, lifecycle_message, report,
  reported, with_tile, with_business, flushed, set_presence, save_auto_reply, send_message,
  read_chat, toggle_presence, change_auto_reply, on_group_event, auto_reply_changed,
}

module _ {I : Feed → Type 0} (k : Kept I) (p : Platform) where
  abbrev Keeps : Server → Type 0
  Keeps w = I w.bus

  pub error_to-Keeps :
      (i : ℕ) (code : WsErrorCode) (message : Text) (w : Server)
      → Keeps w
      → Keeps (error_to i code message w)
  error_to-Keeps i code message w h = k.on_send i (ServerEvent.error code message) w.bus refl h

  pub report-Keeps : (i : ℕ) (e : LifecycleError) (w : Server) → Keeps w → Keeps (report i e w)
  unfolding report
  report-Keeps i e w h =
      error_to-Keeps i bad_request (or_else (lifecycle_message e) (lit "internal error")) w h

  reported-Keeps : {A : Type 0} (i : ℕ) (r : Server × Outcome A) → Keeps r.0 → Keeps (reported i r)
  reported-Keeps i (w, done a) h = h
  reported-Keeps i (w, thrown e) h = report-Keeps i e w h

  with_tile-Keeps :
      (i : ℕ) (g number : Text) (f : Customer → Server → Server) (w : Server)
      → ((c : Customer) → Keeps (f c w))
      → Keeps w
      → Keeps (with_tile i g number f w)
  unfolding with_tile
  with_tile-Keeps i g number f w next h =
      let refused =
        error_to-Keeps i number_not_in_group (number ++ lit " is not a tile in group " ++ g) w h in
      elim (Option-cases (get_customer number w.db)) [
        | inl e ↦ rw (with_tile, e) refused
        | inr (c, e) ↦ elim (Bool-cases (text_eq c.group_id g)) [
          | inl e₁ ↦ rw (with_tile, e, e₁) (next c)
          | inr e₁ ↦ rw (with_tile, e, e₁) refused
        ]
      ]

  with_business-Keeps :
      (i : ℕ) (key : Text) (f : BusinessNumber → Server → Server) (w : Server)
      → ((b : BusinessNumber) → Keeps (f b w))
      → Keeps w
      → Keeps (with_business i key f w)
  unfolding with_business
  with_business-Keeps i key f w next h = elim (Option-cases (get_business key w.db)) [
    | inl e ↦
        rw (with_business, e)
          (error_to-Keeps i WsErrorCode.unknown_business
            (key ++ lit " is not a registered business number") w h)
    | inr (b, e) ↦ rw (with_business, e) (next b)
  ]

  flushed-Keeps : (r : Server × Outcome (Unit {0})) → Keeps r.0 → Keeps (flushed r).0
  flushed-Keeps (w, done u) h = h
  flushed-Keeps (w, thrown e) h = h

  show_presence-Keeps :
      (c : Customer) (i : ℕ) (online : Bool) (now : ℕ) (w : Server)
      → Keeps w
      → Keeps (show_presence p c i online now w).0
  unfolding show_presence
  show_presence-Keeps c i true now w h =
      let w' = with_feed (send i (presence c.number true)) w in
      flushed-Keeps (flush_tile p c.number now w')
        (flush_tile-Keeps k p c.number now w' (k.on_send i (presence c.number true) w.bus refl h))
  show_presence-Keeps c i false now w h = k.on_send i (presence c.number false) w.bus refl h

  pub set_presence-Keeps :
      (number : Text) (online : Bool) (now : ℕ) (locks : LockTable) (w : Server)
      → Keeps w
      → Keeps (set_presence p number online now locks w).0
  unfolding set_presence
  set_presence-Keeps number online now locks w h =
      let db = set_online number online w.db in
      let w₁ : Server = record w { db = db; bus = numbers_changed locks db w.bus } in
      let h₁ : Keeps w₁ = numbers_changed-Keeps k locks db w.bus h in
      elim (Option-cases (get_customer number db)) [
        | inl e ↦ rw (set_presence, e) h₁
        | inr (c, e) ↦ elim (Option-cases (indexed c.group_id w₁.bus.index)) [
          | inl e₁ ↦ rw (set_presence, e, e₁) h₁
          | inr (i, e₁) ↦ rw (set_presence, e, e₁) (show_presence-Keeps c i online now w₁ h₁)
        ]
      ]

  pub save_auto_reply-Keeps :
      (number : Text) (ar : AutoReply) (locks : LockTable) (w : Server)
      → Keeps w
      → Keeps (save_auto_reply p number ar locks w).0
  unfolding save_auto_reply
  save_auto_reply-Keeps number ar locks w h = elim (Result-cases (set_auto_reply number ar w.db)) [
    | inr (x, e) ↦ rw (save_auto_reply, e) h
    | inl (db, e) ↦ rw (save_auto_reply, e) (numbers_changed-Keeps k locks db w.bus h)
  ]

  send_to_business-Keeps :
      (i : ℕ) (body : Text) (now : ℕ) (c : Customer) (b : BusinessNumber) (w : Server)
      → Keeps w
      → Keeps (send_to_business p i body now c b w)
  send_to_business-Keeps i body now c b w h =
      reported-Keeps i (receive p c.number b.phone_number_id body tile now w)
        (receive-Keeps k p c.number b.phone_number_id body tile now w h)

  send_message-Keeps :
      (i : ℕ) (to body : Text) (now : ℕ) (c : Customer) (w : Server)
      → Keeps w
      → Keeps (send_message p i to body now c w)
  unfolding send_message
  send_message-Keeps i to body now c w h = elim (Bool-cases c.online) [
    | inr e ↦
        rw (send_message, e) (error_to-Keeps i tile_offline (c.number ++ lit " is offline") w h)
    | inl e ↦
        rw (send_message, e)
          (with_business-Keeps i to (send_to_business p i body now c) w
            (λ b. send_to_business-Keeps i body now c b w h) h)
  ]

  read_with_business-Keeps :
      (i : ℕ) (now : ℕ) (c : Customer) (b : BusinessNumber) (w : Server)
      → Keeps w
      → Keeps (read_with_business p i now c b w)
  read_with_business-Keeps i now c b w h = elim (Bool-cases c.online) [
    | inr e ↦ rw e h
    | inl e ↦ rw e (
        reported-Keeps i (read (live_deps p) c.number b.phone_number_id now w)
          (read-Keeps (live_deps p) I (on_event-Keeps k) c.number b.phone_number_id now w h))
  ]

  read_chat-Keeps :
      (i : ℕ) (peer : Text) (now : ℕ) (c : Customer) (w : Server)
      → Keeps w
      → Keeps (read_chat p i peer now c w)
  unfolding read_chat
  read_chat-Keeps i peer now c w h =
      with_business-Keeps i peer (read_with_business p i now c) w
        (λ b. read_with_business-Keeps i now c b w h) h

  toggle_presence-Keeps :
      (i : ℕ) (online : Bool) (now : ℕ) (locks : LockTable) (c : Customer) (w : Server)
      → Keeps w
      → Keeps (toggle_presence p i online now locks c w)
  unfolding toggle_presence
  toggle_presence-Keeps i online now locks c w h =
      reported-Keeps i (set_presence p c.number online now locks w)
        (set_presence-Keeps c.number online now locks w h)

  change_auto_reply-Keeps :
      (i : ℕ) (ar : AutoReply) (locks : LockTable) (c : Customer) (w : Server)
      → Keeps w
      → Keeps (change_auto_reply p i ar locks c w)
  unfolding change_auto_reply
  change_auto_reply-Keeps i ar locks c w h =
      let r = save_auto_reply p c.number ar locks w in
      let h' = save_auto_reply-Keeps c.number ar locks w h in
      elim (Outcome-cases r.1) [
        | inl (saved, e) ↦
            rw (change_auto_reply, e)
              (k.on_send i (ServerEvent.auto_reply c.number saved) r.0.bus refl h')
        | inr (x, e) ↦ rw (change_auto_reply, e) (report-Keeps i x r.0 h')
      ]

  pub on_group_event-Keeps :
      (i : ℕ) (g : Text) (ev : ClientEvent) (now : ℕ) (locks : LockTable) (w : Server)
      → Keeps w
      → Keeps (on_group_event p i g ev now locks w)
  unfolding on_group_event
  on_group_event-Keeps i g (message_send from to body) now locks w h =
      with_tile-Keeps i g from (send_message p i to body now) w
        (λ c. send_message-Keeps i to body now c w h) h
  on_group_event-Keeps i g (chat_read n peer) now locks w h =
      with_tile-Keeps i g n (read_chat p i peer now) w (λ c. read_chat-Keeps i peer now c w h) h
  on_group_event-Keeps i g (tile_presence n online) now locks w h =
      with_tile-Keeps i g n (toggle_presence p i online now locks) w
        (λ c. toggle_presence-Keeps i online now locks c w h) h
  on_group_event-Keeps i g (tile_autoreply n ar) now locks w h =
      with_tile-Keeps i g n (change_auto_reply p i ar locks) w
        (λ c. change_auto_reply-Keeps i ar locks c w h) h
  on_group_event-Keeps i g (group_claim x) now locks w h = h
  on_group_event-Keeps i g admin_subscribe now locks w h = h

pub auto_reply_changed-Keeps :
    {I : Feed → Type 0} (k : Kept I) (number : Text) (ar : AutoReply) (w : Server)
    → I w.bus
    → I (auto_reply_changed number ar w).bus
unfolding auto_reply_changed
auto_reply_changed-Keeps k number ar w h = elim (Option-cases (get_customer number w.db)) [
  | inl e ↦ rw (auto_reply_changed, e) h
  | inr (c, e) ↦ elim (Option-cases (indexed c.group_id w.bus.index)) [
    | inl e₁ ↦ rw (auto_reply_changed, e, e₁) h
    | inr (i, e₁) ↦ rw (auto_reply_changed, e, e₁) (k.on_send i (auto_reply number ar) w.bus refl h)
  ]
]
