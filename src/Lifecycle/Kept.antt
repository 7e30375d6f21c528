-- ===== src/Lifecycle/Kept.antt =====
-- What the receiver of the lifecycle's events keeps, the lifecycle keeps.
use comdove_fake_backend.Base.{
  ltb, Bool-cases, Option-cases, is_some, length, is_empty, Text, text_eq, sort_by, ℕ, ◌+◌, ◌≡◌,
  refl, ◌⊎◌, inl, inr, not, ◌||◌, Option, none, some, List, [], ◌∷◌, map,
}
use comdove_fake_backend.Contract.Types.{
  Direction, outbound, Source, api, MessageStatus, BusinessNumber, Customer, StoredMessage,
  is_outbound, max_body_length,
}
use comdove_fake_backend.Contract.Events.{JobKind}
use comdove_fake_backend.Store.Tables.{Db, StoreError, Result, throw}
use comdove_fake_backend.Store.Registry.{get_business, get_customer}
use comdove_fake_backend.Store.Messages.{
  get_message, set_delivered, set_read, by_conversation, unread_delivered, store_port_message,
}
use comdove_fake_backend.Webhooks.JobStore.{Tables}
use comdove_fake_backend.Lifecycle.{
  BusEvent, message_new, message_status, log_changed, LifecycleError, World, LifecycleDeps, Outcome,
  done, thrown, port_message, emit, announce, enqueue_webhook, queue_status, queue_all,
  accepted_message, accept, undelivered, delivered, read, inbound_stored, inbound,
  mark_inbound_read,
}
use comdove_fake_backend.Lifecycle.Envelopes.{inbound_envelope}

pub Outcome-cases :
    {A : Type 0} (o : Outcome A)
    → ((a : A) × (o ≡ done a)) ⊎ ((e : LifecycleError) × (o ≡ thrown e))
Outcome-cases (done a) = inl (a, refl)
Outcome-cases (thrown e) = inr (e, refl)

pub Result-cases :
    {A : Type 0} (r : Result A) → ((a : A) × (r ≡ Result.ok a)) ⊎ ((e : StoreError) × (r ≡ throw e))
Result-cases (Result.ok a) = inl (a, refl)
Result-cases (throw e) = inr (e, refl)

module _ {B : Type 0} (d : LifecycleDeps B) (I : B → Type 0)
    (on_event-Keeps : (e : BusEvent) (db : Db) (t : Tables) (b : B)
      → I b
      → I (d.on_event e db t b)) where
  abbrev Keeps : World B → Type 0
  Keeps w = I w.bus

  emit-Keeps : (e : BusEvent) (w : World B) → Keeps w → Keeps (emit d e w)
  emit-Keeps e w h = on_event-Keeps e w.db w.dispatcher.store w.bus h

  announce-Keeps :
      (m : StoredMessage) (status : MessageStatus) (at : ℕ) (w : World B)
      → Keeps w
      → Keeps (announce d m status at w)
  unfolding announce
  announce-Keeps m status at w h =
      let e = message_status m.wamid m.customer_number status at in
      emit-Keeps (log_changed m.wamid) (emit d e w) (emit-Keeps e w h)

  queue_status-Keeps :
      (m : StoredMessage) (status : MessageStatus) (at : ℕ) (not_before : Option ℕ) (w : World B)
      → Keeps w
      → Keeps (queue_status d m status at not_before w).0
  unfolding queue_status enqueue_webhook
  queue_status-Keeps m status at not_before w h =
      elim (Option-cases (get_business m.phone_number_id w.db)) [
        | inl e ↦ rw (queue_status, e) h
        | inr (b, e) ↦ rw (queue_status, e) h
      ]

  queue_all-Keeps :
      (ms : List StoredMessage) (status : MessageStatus) (at : ℕ) (w : World B)
      → Keeps w
      → Keeps (queue_all d ms status at w).0
  unfolding queue_all
  queue_all-Keeps [] status at w h = h
  queue_all-Keeps (m ∷ ms) status at w h =
      let q = queue_status d m status at none w in
      let h' = queue_status-Keeps m status at none w h in
      elim (Outcome-cases q.1) [
        | inl (u, e) ↦
            rw (queue_all, e)
              (queue_all-Keeps ms status at (announce d m status at q.0)
                (announce-Keeps m status at q.0 h'))
        | inr (x, e) ↦ rw (queue_all, e) h'
      ]

  pub delivered-Keeps :
      (ms : List StoredMessage) (now : ℕ) (w : World B) → Keeps w → Keeps (delivered d ms now w).0
  unfolding delivered
  delivered-Keeps ms now w h =
      let todo = sort_by by_conversation (undelivered d ms w.db) in
      elim (Bool-cases (is_empty todo)) [
        | inl e ↦ rw (delivered, e) h
        | inr e ↦
            rw (delivered, e)
              (queue_all-Keeps todo MessageStatus.delivered now
                (record w { db = set_delivered (map (λ m. m.wamid) todo) now w.db }) h)
      ]

  pub read-Keeps :
      (customer peer : Text) (now : ℕ) (w : World B)
      → Keeps w
      → Keeps (read d customer peer now w).0
  unfolding read
  read-Keeps customer peer now w h = elim (Option-cases (get_business peer w.db)) [
    | inl e ↦ rw (read, e) h
    | inr (b, e) ↦
        let todo = unread_delivered customer b.phone_number_id w.db in
        elim (Bool-cases (is_empty todo)) [
          | inl none_left ↦ rw (read, e, none_left) h
          | inr some_left ↦
              rw (read, e, some_left)
                (queue_all-Keeps todo MessageStatus.read now
                  (record w { db = set_read (map (λ m. m.wamid) todo) now w.db }) h)
        ]
  ]

  inbound_stored-Keeps :
      (b : BusinessNumber) (c : Customer) (now : ℕ) (m : StoredMessage) (w : World B)
      → Keeps w
      → Keeps (inbound_stored d b c now m w).0
  unfolding inbound_stored enqueue_webhook
  inbound_stored-Keeps b c now m w h =
      let w₁ = enqueue_webhook d m JobKind.inbound (inbound_envelope b c m) none now w in
      emit-Keeps (log_changed m.wamid) (emit d (message_new m) w₁) (emit-Keeps (message_new m) w₁ h)

  pub inbound-Keeps :
      (from to body : Text) (source : Source) (wamid : Text) (now : ℕ) (w : World B)
      → Keeps w
      → Keeps (inbound d from to body source wamid now w).0
  unfolding inbound
  inbound-Keeps from to body source wamid now w h = elim (Option-cases (get_customer from w.db)) [
    | inl e ↦ rw (inbound, e) h
    | inr (c, e) ↦ elim (Option-cases (get_business to w.db)) [
      | inl e₁ ↦ rw (inbound, e, e₁) h
      | inr (b, e₁) ↦ elim (Bool-cases (is_empty body || ltb max_body_length (length body))) [
        | inl e₂ ↦ rw (inbound, e, e₁, e₂) h
        | inr e₂ ↦
            let msg =
              port_message Direction.inbound source wamid b.phone_number_id c.number body now in
            elim (Result-cases (store_port_message msg w.db)) [
              | inr (x, e₃) ↦ rw (inbound, e, e₁, e₂, e₃) h
              | inl (r, e₃) ↦
                  rw (inbound, e, e₁, e₂, e₃)
                    (inbound_stored-Keeps b c now r.0 (record w { db = r.1 }) h)
            ]
      ]
    ]
  ]

  pub accept-Keeps :
      (b : BusinessNumber) (wa_id text wamid : Text) (now : ℕ) (w : World B)
      → Keeps w
      → Keeps (accept d b wa_id text wamid now w).0
  unfolding accept accepted_message
  accept-Keeps b wa_id text wamid now w h =
      let msg = port_message outbound api wamid b.phone_number_id wa_id text now in
      elim (Result-cases (store_port_message msg w.db)) [
        | inr (x, e) ↦ rw (accept, e) h
        | inl (r, e) ↦
            let w₁ : World B = record w { db = r.1 } in
            let sent = queue_status d r.0 MessageStatus.sent now (some (now + d.status_delay)) w₁ in
            let h' =
              queue_status-Keeps r.0 MessageStatus.sent now (some (now + d.status_delay)) w₁ h in
            elim (Outcome-cases sent.1) [
              | inl (u, e₁) ↦
                  rw (accept, e, accepted_message, e₁)
                    (emit-Keeps (log_changed r.0.wamid) sent.0 h')
              | inr (x, e₁) ↦ rw (accept, e, accepted_message, e₁) h'
            ]
      ]

  pub mark_inbound_read-Keeps :
      (b : BusinessNumber) (wamid : Text) (now : ℕ) (w : World B)
      → Keeps w
      → Keeps (mark_inbound_read d b wamid now w)
  unfolding mark_inbound_read
  mark_inbound_read-Keeps b wamid now w h = elim (Option-cases (get_message wamid w.db)) [
    | inl e ↦ rw (mark_inbound_read, e) h
    | inr (m, e) ↦
        elim (Bool-cases (
          is_outbound m.direction
          || not (text_eq m.phone_number_id b.phone_number_id)
          || is_some m.read_at)) [
            | inl e₁ ↦ rw (mark_inbound_read, e, e₁) h
            | inr e₁ ↦
                rw (mark_inbound_read, e, e₁)
                  (announce-Keeps m MessageStatus.read now
                    (record w { db = set_read (wamid ∷ []) now w.db }) h)
          ]
  ]
