-- ===== src/Lifecycle.antt =====
-- core/lifecycle.ts over the store and the dispatcher. What a call has changed before it throws
-- stays changed. `wamid` is a random id.
pub mod Envelopes
pub mod Inbound
pub mod Accept
pub mod Unregistered
pub mod Kept
pub mod Delivered
use comdove_fake_backend.Base.{
  ltb, if◌then◌else◌, is_some, length, is_empty, Text, text_eq, sort_by, ℕ, ◌+◌, Bool, not, ◌||◌,
  Option, none, some, List, [], ◌∷◌, map,
}
use comdove_fake_backend.Contract.Json.{Json}
use comdove_fake_backend.Contract.Types.{
  Direction, outbound, Source, api, MessageStatus, BusinessNumber, Customer, StoredMessage,
  RejectedRequest, is_outbound, max_body_length,
}
use comdove_fake_backend.Contract.Events.{JobKind}
use comdove_fake_backend.Store.Tables.{Db, StoreError, ok, throw}
use comdove_fake_backend.Store.Registry.{get_business, get_customer}
use comdove_fake_backend.Store.Messages.{
  get_message, set_delivered, set_read, by_conversation, unread_delivered, PortMessage,
  store_port_message,
}
use comdove_fake_backend.Webhooks.JobStore.{Tables, sqlite_store}
use comdove_fake_backend.Webhooks.Dispatcher.Types.{Options, Dispatcher}
use comdove_fake_backend.Webhooks.Dispatcher.Slots.{enqueue}
use comdove_fake_backend.Lifecycle.Envelopes.{inbound_envelope, status_envelope}

pub data BusEvent : Type 0 where
  message_new : StoredMessage → BusEvent
  message_status : (wamid number : Text) → MessageStatus → (at : ℕ) → BusEvent
  log_changed : (wamid : Text) → BusEvent
  log_rejected : RejectedRequest → BusEvent
  webhook_verify : (ok : Bool) (at : ℕ) (detail : Text) → BusEvent

pub data LifecycleError : Type 0 where
  unknown_customer_number : (number : Text) → LifecycleError
  unknown_business_number : (id : Text) → LifecycleError
  invalid_body : LifecycleError
  store_failed : StoreError → LifecycleError  -- an exception of the registry, passed on

-- `B` is what the receiver of the events keeps.
pub record World (B : Type 0) : Type 0 where
  pub db : Db
  pub dispatcher : Dispatcher Tables
  pub bus : B

-- `LifecycleDeps`. A receiver reads the tables and changes what it keeps; `stringify` is
-- `JSON.stringify`.
pub record LifecycleDeps (B : Type 0) : Type 0 where
  pub on_event : BusEvent → Db → Tables → B → B
  pub stringify : Json → Text
  pub options : Options
  pub status_delay : ℕ

pub data Outcome (A : Type 0) : Type 0 where
  done : A → Outcome A
  thrown : LifecycleError → Outcome A

abbrev pub kind_of : MessageStatus → JobKind
kind_of MessageStatus.sent = JobKind.sent
kind_of MessageStatus.delivered = JobKind.delivered
kind_of MessageStatus.read = JobKind.read

abbrev pub port_message :
    Direction → Source → (wamid pid number body : Text) → (at : ℕ) → PortMessage
port_message direction source wamid pid number body at = record {
  wamid = wamid;
  direction = direction;
  source = source;
  phone_number_id = pid;
  customer_number = number;
  body = body;
  at = at;
}

module _ {B : Type 0} (d : LifecycleDeps B) where
  -- `bus.emit`
  abbrev pub emit : BusEvent → World B → World B
  emit e w = record w { bus = d.on_event e w.db w.dispatcher.store w.bus }

  unfoldable pub announce : StoredMessage → MessageStatus → (at : ℕ) → World B → World B
  announce m status at w =
      emit (log_changed m.wamid) (emit (message_status m.wamid m.customer_number status at) w)

  unfoldable pub enqueue_webhook :
      StoredMessage → JobKind → Json → (not_before : Option ℕ) → (now : ℕ) → World B → World B
  enqueue_webhook m kind body not_before now w = record w {
    dispatcher =
        (enqueue sqlite_store d.options
          (record {
            conversation_id = m.conversation_id;
            wamid = m.wamid;
            kind = kind;
            body = d.stringify body;
            not_before = not_before;
          })
          now w.dispatcher).1;
  }

  unfoldable pub queue_status :
      StoredMessage
      → MessageStatus
      → (at : ℕ) → (not_before : Option ℕ) → World B
      → World B × Outcome (Unit {0})
  unfolding enqueue_webhook
  queue_status m status at not_before w = elim (get_business m.phone_number_id w.db) [
    | none ↦ (w, thrown (unknown_business_number m.phone_number_id))
    | some b ↦ (
      enqueue_webhook m (kind_of status) (status_envelope b m.wamid status at m.customer_number)
          not_before at w,
      done tt,
    )
  ]

  -- The `for` loops of `delivered` and `read`.
  unfoldable pub queue_all :
      List StoredMessage → MessageStatus → (at : ℕ) → World B → World B × Outcome (Unit {0})
  unfolding queue_status announce
  queue_all [] status at w = (w, done tt)
  queue_all (m ∷ ms) status at w =
      let (w', r) = queue_status m status at none w in
      let rest = queue_all ms status at (announce m status at w') in
      elim r [ thrown e ↦ (w', thrown e) | done u ↦ rest ]

  unfoldable pub accepted_message :
      StoredMessage → (at : ℕ) → World B → World B × Outcome StoredMessage
  unfolding queue_status
  accepted_message m at w =
      let (w', r) = queue_status m MessageStatus.sent at (some (at + d.status_delay)) w in
      elim r [ thrown e ↦ (w', thrown e) | done u ↦ (emit (log_changed m.wamid) w', done m) ]

  unfoldable pub accept :
      BusinessNumber
      → (wa_id text wamid : Text) → (now : ℕ) → World B
      → World B × Outcome StoredMessage
  unfolding accepted_message
  accept b wa_id text wamid now w =
      elim (store_port_message (port_message outbound api wamid b.phone_number_id wa_id text now)
        w.db) [
          | throw e ↦ (w, thrown (store_failed e))
          | ok r ↦ accepted_message r.0 now (record w { db = r.1 })
        ]

  unfoldable pub undelivered : List StoredMessage → Db → List StoredMessage
  undelivered [] db = []
  undelivered (m ∷ ms) db =
      let rest = undelivered ms db in
      if is_outbound m.direction
      then elim (get_message m.wamid db) [
        | none ↦ rest
        | some s ↦ if is_some s.delivered_at then rest else s ∷ rest
      ]
      else rest

  unfoldable pub delivered : List StoredMessage → (now : ℕ) → World B → World B × Outcome (Unit {0})
  unfolding undelivered queue_all
  delivered ms now w =
      let todo = sort_by by_conversation (undelivered ms w.db) in
      if is_empty todo
      then (w, done tt)
      else queue_all todo MessageStatus.delivered now
          (record w { db = set_delivered (map (λ m. m.wamid) todo) now w.db })

  unfoldable pub read : (customer peer : Text) → (now : ℕ) → World B → World B × Outcome (Unit {0})
  unfolding queue_all
  read customer peer now w = elim (get_business peer w.db) [
    | none ↦ (w, thrown (unknown_business_number peer))
    | some b ↦
        let todo = unread_delivered customer b.phone_number_id w.db in
        if is_empty todo
        then (w, done tt)
        else queue_all todo MessageStatus.read now
            (record w { db = set_read (map (λ m. m.wamid) todo) now w.db })
  ]

  unfoldable pub inbound_stored :
      BusinessNumber
      → Customer
      → (now : ℕ) → StoredMessage
      → World B
      → World B × Outcome StoredMessage
  unfolding enqueue_webhook
  inbound_stored b c now m w = (
    emit (log_changed m.wamid) (
        emit (message_new m)
          (enqueue_webhook m JobKind.inbound (inbound_envelope b c m) none now w)),
    done m,
  )

  unfoldable pub inbound :
      (from to body : Text)
      → Source
      → (wamid : Text) → (now : ℕ) → World B
      → World B × Outcome StoredMessage
  unfolding inbound_stored
  inbound from to body source wamid now w = elim (get_customer from w.db) [
    | none ↦ (w, thrown (unknown_customer_number from))
    | some c ↦ elim (get_business to w.db) [
      | none ↦ (w, thrown (unknown_business_number to))
      | some b ↦
          if is_empty body || ltb max_body_length (length body)
          then (w, thrown invalid_body)
          else elim (store_port_message
              (port_message Direction.inbound source wamid b.phone_number_id c.number body now)
              w.db) [
                | throw e ↦ (w, thrown (store_failed e))
                | ok r ↦ inbound_stored b c now r.0 (record w { db = r.1 })
              ]
    ]
  ]

  unfoldable pub mark_inbound_read : BusinessNumber → (wamid : Text) → (now : ℕ) → World B → World B
  unfolding announce
  mark_inbound_read b wamid now w = elim (get_message wamid w.db) [
    | none ↦ w
    | some m ↦
        if is_outbound m.direction
          || not (text_eq m.phone_number_id b.phone_number_id)
          || is_some m.read_at
        then w
        else announce m MessageStatus.read now (record w { db = set_read (wamid ∷ []) now w.db })
  ]
