-- ===== src/Lifecycle/Envelopes.antt =====
-- webhooks/envelopes.ts: the bodies of the webhooks as JSON values.
use comdove_fake_backend.Base.{or_else, Text, lit, ℕ, ◌/◌, ◌++◌}
use comdove_fake_backend.Contract.Json.{Json, string, array, object, nil, cons, Fields, end, field}
use comdove_fake_backend.Contract.Decimal.{decimal}
use comdove_fake_backend.Contract.Types.{
  MessageStatus, sent, delivered, read, BusinessNumber, Customer, StoredMessage,
}

unfoldable pub unix_seconds : (ms : ℕ) → Text
unix_seconds ms = decimal (ms / 1000)

-- The two ways that this file builds values: `{ … }` and `[x]`.
abbrev pub text_field : Text → Text → Fields → Fields
text_field k s fs = field k (string s) fs

abbrev one : Json → Json
one v = array (cons v nil)

abbrev metadata : BusinessNumber → Json
metadata b = object (
    text_field (lit "display_phone_number") b.display_number
      (text_field (lit "phone_number_id") b.phone_number_id end))

-- `value` are the fields that `...value` spreads.
unfoldable pub envelope : BusinessNumber → (value : Fields) → Json
envelope b value =
    let body = object (
      text_field (lit "messaging_product") (lit "whatsapp")
        (field (lit "metadata") (metadata b) value)) in
    let change =
      object (text_field (lit "field") (lit "messages") (field (lit "value") body end)) in
    let entry = object (text_field (lit "id") b.waba_id (field (lit "changes") (one change) end)) in
    object (
      text_field (lit "object") (lit "whatsapp_business_account")
        (field (lit "entry") (one entry) end))

unfoldable pub inbound_envelope : BusinessNumber → Customer → StoredMessage → Json
unfolding envelope unix_seconds
inbound_envelope b c m =
    let profile =
      object (text_field (lit "name") (or_else c.label (lit "Tile " ++ c.number)) end) in
    let contact = object (field (lit "profile") profile (text_field (lit "wa_id") c.number end)) in
    let message = object (
      text_field (lit "from") c.number (
        text_field (lit "id") m.wamid (
          text_field (lit "timestamp") (unix_seconds m.created_at) (
            text_field (lit "type") (lit "text")
              (field (lit "text") (object (text_field (lit "body") m.body end)) end))))) in
    envelope b (field (lit "contacts") (one contact) (field (lit "messages") (one message) end))

abbrev pub status_name : MessageStatus → Text
status_name sent = lit "sent"
status_name delivered = lit "delivered"
status_name read = lit "read"

unfoldable pub status_envelope :
    BusinessNumber → (wamid : Text) → MessageStatus → (at : ℕ) → (recipient : Text) → Json
unfolding envelope unix_seconds
status_envelope b wamid status at recipient =
    let entry = object (
      text_field (lit "id") wamid (
        text_field (lit "status") (status_name status) (
          text_field (lit "timestamp") (unix_seconds at)
            (text_field (lit "recipient_id") recipient end)))) in
    envelope b (field (lit "statuses") (one entry) end)
