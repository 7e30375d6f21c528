-- ===== src/Dev/MemoryBus.antt =====
-- dev/memory-bus.ts: the bus that records, and the delivery without sockets.
use comdove_fake_backend.Store.Tables.{Db}
use comdove_fake_backend.Webhooks.JobStore.{Tables}
use comdove_fake_backend.Contract.Types.{StoredMessage}
use comdove_fake_backend.Base.{
  Text, lit, text_eq, Bool, Option, none, some, List, [], ◌∷◌, ◌++◌, keep, if◌then◌else◌,
}
use comdove_fake_backend.Lifecycle.{
  BusEvent, message_new, message_status, log_changed, log_rejected, webhook_verify,
}

-- `RecordingBus`: what it keeps is the list of its events.
unfoldable pub record_event : BusEvent → Db → Tables → List BusEvent → List BusEvent
record_event e db t events = events ++ e ∷ []

-- `e.type`
abbrev pub type_of : BusEvent → Text
type_of (message_new m) = lit "message.new"
type_of (message_status id number status at) = lit "message.status"
type_of (log_changed id) = lit "log.changed"
type_of (log_rejected request) = lit "log.rejected"
type_of (webhook_verify fine at detail) = lit "webhook.verify"

unfoldable pub of_type : Text → List BusEvent → List BusEvent
of_type type events = keep (λ e. text_eq (type_of e) type) events

-- `W` is what `onDelivered` changes; it is left out where it is `none`.
pub record FakeDelivery (W : Type 0) : Type 0 where
  pub calls : List StoredMessage
  pub online : Bool  -- mode: 'online' or 'offline'
  pub on_delivered : Option (StoredMessage → W → W)

abbrev pub notified : {W : Type 0} → Option (StoredMessage → W → W) → StoredMessage → W → W
notified none m w = w
notified (some f) m w = f m w

-- True for 'delivered' and false for 'queued'.
unfoldable pub fake_deliver :
    {W : Type 0} → StoredMessage → FakeDelivery W → W → Bool × FakeDelivery W × W
fake_deliver m d w = (
  d.online,
  record d { calls = d.calls ++ m ∷ [] },
  if d.online then notified d.on_delivered m w else w,
)
