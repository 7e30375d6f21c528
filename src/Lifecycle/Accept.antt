-- ===== src/Lifecycle/Accept.antt =====
-- `accept` of core/lifecycle.ts: one stored message, one delayed webhook, one event.
use comdove_fake_backend.Contract.Types.{
  outbound, api, MessageStatus, BusinessNumber, StoredMessage,
}
use comdove_fake_backend.Contract.Events.{JobKind}
use comdove_fake_backend.Store.Messages.Receipt.{IsStored}
use comdove_fake_backend.Base.{Text, ℕ, ◌+◌, ◌≡◌}
use comdove_fake_backend.Store.Messages.{NewMessage, to_new_message}
use comdove_fake_backend.Webhooks.JobStore.{sqlite_store}
use comdove_fake_backend.Lifecycle.{LifecycleDeps, log_changed, World, port_message}
use comdove_fake_backend.Lifecycle.Envelopes.{status_envelope}
use comdove_fake_backend.Lifecycle.Inbound.{webhook_of}

module _ {B : Type 0} (d : LifecycleDeps B) where
  abbrev sent_of : BusinessNumber → (number text wamid : Text) → (now : ℕ) → NewMessage
  sent_of b number text wamid now =
      to_new_message (port_message outbound api wamid b.phone_number_id number text now) b

  -- What an accepted message of a business has done.
  pub record IsAccepted (b : BusinessNumber) (number text wamid : Text) (now : ℕ) (w w' : World B)
      (m : StoredMessage) : Type 0 where
    pub stored : IsStored (sent_of b number text wamid now) wamid now w.db w'.db m
    pub queued :
        w'.dispatcher.store
        ≡ (sqlite_store.insert
            (webhook_of m JobKind.sent
              (d.stringify (status_envelope b m.wamid MessageStatus.sent now m.customer_number))
              (now + d.status_delay)
              now)
            w.dispatcher.store).1
    pub announced : w'.bus ≡ d.on_event (log_changed m.wamid) w'.db w'.dispatcher.store w.bus
