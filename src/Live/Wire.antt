-- ===== src/Live/Wire.antt =====
-- ws/wire.ts: stored rows as chat bubbles and log entries.
use comdove_fake_backend.Base.{◌==◌, if◌then◌else◌, ℕ, Bool, false, not, Option, none, some}
use comdove_fake_backend.Contract.Types.{MessageStatus, StoredMessage, RejectedRequest, is_outbound}
use comdove_fake_backend.Contract.Events.{WsMessage, RejectedLogEntry}

-- `at ? … : …` of a time or null: 0 is falsy.
abbrev pub is_set : Option ℕ → Bool
is_set none = false
is_set (some at) = not (at == 0)

unfoldable pub status_of : (delivered_at read_at : Option ℕ) → MessageStatus
status_of delivered_at read_at =
    if is_set read_at
    then MessageStatus.read
    else if is_set delivered_at
    then MessageStatus.delivered
    else MessageStatus.sent

unfoldable pub to_ws_message : StoredMessage → WsMessage
unfolding status_of
to_ws_message m = record {
  wamid = m.wamid;
  peer = if is_outbound m.direction then m.from_number else m.to_number;
  direction = m.direction;
  body = m.body;
  status = status_of m.delivered_at m.read_at;
  created_at = m.created_at;
}

unfoldable pub to_rejected_log_entry : RejectedRequest → RejectedLogEntry
to_rejected_log_entry r = record {
  time = r.at;
  phone_number_id = r.phone_number_id;
  to = r.to;
  body = r.body;
  http_status = r.http_status;
  code = r.code;
  subcode = r.subcode;
  forced = r.forced;
}
