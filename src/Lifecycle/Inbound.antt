-- ===== src/Lifecycle/Inbound.antt =====
-- `inbound` of core/lifecycle.ts: one stored message, one webhook, two events.
use comdove_fake_backend.Contract.Json.{Json}
use comdove_fake_backend.Contract.Types.{
  Direction, Source, BusinessNumber, Customer, StoredMessage, max_body_length,
}
use comdove_fake_backend.Contract.Events.{JobKind}
use comdove_fake_backend.Store.Messages.Receipt.{IsStored, store_message_receipt}
use comdove_fake_backend.Base.{
  ltb, or_else, length, any, is_empty, Text, text_eq, ℕ, ◌≤◌, ◌≡◌, refl, false, Option, none, some,
  arith,
}
use comdove_fake_backend.Store.Registry.{get_business, get_customer}
use comdove_fake_backend.Store.Messages.{to_new_message, store_port_message}
use comdove_fake_backend.Store.Messages.Stored.{Numbered}
use comdove_fake_backend.Webhooks.JobStore.{NewJob, sqlite_store}
use comdove_fake_backend.Webhooks.Dispatcher.Slots.{enqueue}
use comdove_fake_backend.Webhooks.Dispatcher.Boot.{push_store}
use comdove_fake_backend.Webhooks.Dispatcher.Stores.{sqlite_laws}
use comdove_fake_backend.Lifecycle.{
  LifecycleDeps, message_new, log_changed, World, Outcome, done, emit, port_message,
  enqueue_webhook, inbound_stored, inbound,
}
use comdove_fake_backend.Lifecycle.Envelopes.{inbound_envelope}

-- The webhook of a message, as it goes to the job store.
abbrev pub webhook_of : StoredMessage → JobKind → (payload : Text) → (not_before now : ℕ) → NewJob
webhook_of m kind payload not_before now = record {
  conversation_id = m.conversation_id;
  wamid = m.wamid;
  kind = kind;
  payload = payload;
  not_before = not_before;
  created_at = now;
}

module _ {B : Type 0} (d : LifecycleDeps B) where
  pub enqueue_webhook-store :
      (m : StoredMessage) (kind : JobKind) (body : Json) (not_before : Option ℕ) (now : ℕ)
      (w : World B)
      → (enqueue_webhook d m kind body not_before now w).dispatcher.store
        ≡ (sqlite_store.insert
            (webhook_of m kind (d.stringify body) (or_else not_before 0) now)
            w.dispatcher.store).1
  unfolding enqueue_webhook enqueue sqlite_store
  enqueue_webhook-store m kind body not_before now w =
      let s =
        sqlite_store.insert (webhook_of m kind (d.stringify body) (or_else not_before 0) now)
          w.dispatcher.store in
      (push_store sqlite_store sqlite_laws (λ k r. r) d.options s.0
        (record w.dispatcher { store = s.1 })).0

  -- What an accepted message of a customer has done.
  pub record IsReceived (b : BusinessNumber) (c : Customer) (body : Text) (source : Source)
      (wamid : Text) (now : ℕ) (w w' : World B) (m : StoredMessage) : Type 0 where
    pub stored :
        IsStored
          (to_new_message
            (port_message Direction.inbound source wamid b.phone_number_id c.number body now)
            b)
          wamid
          now
          w.db
          w'.db
          m
    pub queued :
        w'.dispatcher.store
        ≡ (sqlite_store.insert
            (webhook_of m JobKind.inbound (d.stringify (inbound_envelope b c m)) 0 now)
            w.dispatcher.store).1
    pub announced :
        w'.bus
        ≡ d.on_event
            (log_changed m.wamid)
            w'.db
            w'.dispatcher.store
            (d.on_event (message_new m) w'.db w'.dispatcher.store w.bus)

  -- In well-numbered tables, a text of 1 to 4096 units from a customer to a business that its id
  -- finds, with an unused wamid, is stored as the newest message of their conversation; one
  -- `inbound` webhook of that conversation with its envelope goes to the job store; and the
  -- message is announced, then the log.
  pub inbound-IsReceived :
      (from to body : Text) (source : Source) (wamid : Text) (now : ℕ) (w : World B) (c : Customer)
      (b : BusinessNumber)
      → Numbered w.db
      → get_customer from w.db ≡ some c
      → get_business to w.db ≡ some b
      → get_business b.phone_number_id w.db ≡ some b
      → is_empty body ≡ false
      → length body ≤ max_body_length
      → any (λ x. text_eq x.wamid wamid) w.db.messages ≡ false
      → (m : StoredMessage) × (w' : World B) × ◌≡◌ {A = World B × Outcome StoredMessage}
          (inbound d from to body source wamid now w)
          (w', done m)
        × IsReceived b c body source wamid now w w' m
  unfolding inbound inbound_stored store_port_message
  inbound-IsReceived from to body source wamid now w c b v customer business own full short unused =
      let msg = port_message Direction.inbound source wamid b.phone_number_id c.number body now in
      let (m, db', e, stored) =
        store_message_receipt (to_new_message msg b) wamid now w.db v unused in
      let fits : ltb max_body_length (length body) ≡ false = ground arith in
      let w₁ : World B = record w { db = db' } in
      (
        m,
        emit d (log_changed m.wamid) (
            emit d (message_new m)
              (enqueue_webhook d m JobKind.inbound (inbound_envelope b c m) none now w₁)),
        rw (inbound, customer, business, full, fits, store_port_message, own, e) refl,
        record {
          stored = stored;
          queued = enqueue_webhook-store m JobKind.inbound (inbound_envelope b c m) none now w₁;
          announced = refl;
        },
      )
