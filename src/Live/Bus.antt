-- ===== src/Live/Bus.antt =====
-- core/bus.ts: the events of the lifecycle as frames.
use comdove_fake_backend.Base.{if◌then◌else◌, Text, ℕ, Option, none, some}
use comdove_fake_backend.Contract.Types.{is_outbound}
use comdove_fake_backend.Contract.Events.{ServerEvent}
use comdove_fake_backend.Store.Tables.{Db}
use comdove_fake_backend.Store.Registry.{get_customer}
use comdove_fake_backend.Webhooks.JobStore.{Tables}
use comdove_fake_backend.Lifecycle.{
  BusEvent, message_new, message_status, log_changed, log_rejected, webhook_verify,
}
use comdove_fake_backend.Live.Wire.{to_ws_message, to_rejected_log_entry}
use comdove_fake_backend.Live.Feed.{Feed, send, indexed, broadcast, log_has_changed}

-- `sessionFor`, and a frame to the session if there is one.
unfoldable pub holder_of : (number : Text) → Db → Feed → Option ℕ
unfolding indexed
holder_of number db f = elim (get_customer number db) [
  | none ↦ none
  | some c ↦ indexed c.group_id f.index
]

abbrev pub send_to : Option ℕ → ServerEvent → Feed → Feed
send_to none ev f = f
send_to (some i) ev f = send i ev f

unfoldable pub on_event : BusEvent → Db → Tables → Feed → Feed
unfolding holder_of
on_event (message_new m) db t f =
    if is_outbound m.direction
    then f
    else send_to (holder_of m.customer_number db f)
        (ServerEvent.message_new m.to_number m.customer_number (to_ws_message m)) f
on_event (message_status wamid number status at) db t f =
    send_to (holder_of number db f) (ServerEvent.message_status wamid number status at) f
on_event (log_changed wamid) db t f = log_has_changed wamid db t f
on_event (log_rejected r) db t f = broadcast (ServerEvent.log_rejected (to_rejected_log_entry r)) f
on_event (webhook_verify passed at detail) db t f =
    broadcast (ServerEvent.webhook_verify passed at detail) f
