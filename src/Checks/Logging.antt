-- ===== src/Checks/Logging.antt =====
-- The log, the automatic replies and the marks of a message on one business and one customer.
use comdove_fake_backend.Store.Registry.{get_customer}
use comdove_fake_backend.Live.Wire.{to_ws_message}
use comdove_fake_backend.Base.{
  All, length, keep, take, Text, lit, text_eq, digits_only, insert_by, sort_by, ◌≤◌, min, ◌≡◌, refl,
  false, none, some, List, [], ◌∷◌, ◌++◌, map,
}
use comdove_fake_backend.Contract.Types.{
  keyword, StoredMessage, RejectedRequest, snapshot_history_per_tile,
}
use comdove_fake_backend.Store.Tables.{Db}
use comdove_fake_backend.Store.Log.{time_of, get_log}
use comdove_fake_backend.Store.Log.Order.{Descending}
use comdove_fake_backend.Store.Log.Newest.{whole_log, get_log-whole_log, get_log-Descending}
use comdove_fake_backend.Store.AutoReply.{
  begins, includes, pick_reply, compute_reply, Answer, compute_reply-Answer,
}
use comdove_fake_backend.Store.Groups.{get_auto_reply}
use comdove_fake_backend.Store.Messages.{
  select_messages, get_message, set_delivered, queued_for, history,
}
use comdove_fake_backend.Store.Messages.Marks.{with_delivery, get_message-set_delivered}
use comdove_fake_backend.Lifecycle.{BusEvent, World, Outcome, done, delivered}
use comdove_fake_backend.Lifecycle.Delivered.{delivered_again}
use comdove_fake_backend.Checks.Storing.{ana, small_db, hello_row, used_db}
use comdove_fake_backend.Checks.Messaging.{no_jobs, quiet, recorded, queued_message}
use comdove_fake_backend.Live.Wire.{to_rejected_log_entry}
use comdove_fake_backend.Live.StoreGroups.{count_unread, past_of, tile_of}
use comdove_fake_backend.Live.StoreGroups.Timeline.{Ascending}
use comdove_fake_backend.Live.StoreGroups.Tiles.{
  count_of, unread_from, tile_of-history, tile_of-unread,
}

abbrev refusal : RejectedRequest
refusal = record {
  at = 90;
  phone_number_id = lit "MOCK-PN-1";
  http_status = 401;
  code = 190;
  subcode = none;
  forced = false;
  to = none;
  body = none;
}

abbrev refused_db : Db
refused_db = record used_db { rejected_requests = refusal ∷ [] }

get_log-whole_log_example : get_log 1 refused_db no_jobs ≡ take 1 (whole_log refused_db no_jobs)
get_log-whole_log_example = get_log-whole_log 1 refused_db no_jobs

get_log-Descending_example :
    (length (get_log 1 refused_db no_jobs) ≤ 1) × Descending time_of (get_log 1 refused_db no_jobs)
get_log-Descending_example = get_log-Descending 1 refused_db no_jobs

-- The refusal is newer than the message.
newest_row : map time_of (get_log 1 refused_db no_jobs) ≡ 90 ∷ []
unfolding get_log sort_by insert_by select_messages to_rejected_log_entry
newest_row = refl

abbrev same_case : Text → Text
same_case t = t

abbrev priced_db : Db
priced_db = record small_db {
  customers = record ana { reply_mode = keyword; reply_delay_ms = 500 } ∷ [];
  keyword_replies =
      record {
        customer_number = lit "60111222";
        position = 0;
        keyword = lit "price";
        reply = lit "10";
      }
      ∷ [];
}

compute_reply-Answer_example :
    Answer same_case
      (lit "the price?")
      (get_auto_reply (lit "60111222") priced_db)
      (compute_reply same_case (lit "60111222") (lit "the price?") priced_db)
compute_reply-Answer_example =
    compute_reply-Answer same_case (lit "60111222") (lit "the price?") priced_db

answered :
    compute_reply same_case (lit "60111222") (lit "the price?") priced_db ≡ some (lit "10", 500)
unfolding compute_reply pick_reply includes begins get_auto_reply get_customer text_eq digits_only
    sort_by insert_by
answered = refl

get_message-set_delivered_example :
    get_message (lit "wamid.1") (set_delivered (lit "wamid.1" ∷ []) 90 used_db)
    ≡ with_delivery (lit "wamid.1") (lit "wamid.1" ∷ []) 90 (get_message (lit "wamid.1") used_db)
get_message-set_delivered_example =
    get_message-set_delivered (lit "wamid.1") (lit "wamid.1" ∷ []) 90 used_db

abbrev waiting_text : World (List BusEvent)
waiting_text = record quiet { db = used_db }

delivered_again_example :
    ◌≡◌ {A = World (List BusEvent) × Outcome (Unit {0})}
      (delivered recorded
        (queued_message ∷ [])
        95
        (delivered recorded (queued_message ∷ []) 90 waiting_text).0)
      ((delivered recorded (queued_message ∷ []) 90 waiting_text).0, done tt)
delivered_again_example = delivered_again recorded (queued_message ∷ []) 90 95 waiting_text

abbrev delivered_db : Db
delivered_db = record used_db { messages = record hello_row { delivered_at = some 90 } ∷ [] }

tile_of-history_example :
    (before shown : List StoredMessage) × (past_of (lit "60111222") delivered_db ≡ before ++ shown)
    × ((tile_of delivered_db ana).history ≡ map to_ws_message shown)
    × (length (tile_of delivered_db ana).history
        ≡ min snapshot_history_per_tile (length (past_of (lit "60111222") delivered_db)))
    × All (λ a. All (λ b. a.created_at ≤ b.created_at) shown) before
    × Ascending shown
tile_of-history_example = tile_of-history delivered_db ana

tile_of-unread_example :
    count_of (lit "15550001") (tile_of delivered_db ana).unread
    ≡ length (keep (unread_from (lit "15550001")) (past_of (lit "60111222") delivered_db))
tile_of-unread_example = tile_of-unread delivered_db ana (lit "15550001")

one_unread : (tile_of delivered_db ana).unread ≡ (lit "15550001", 1) ∷ []
unfolding tile_of history queued_for select_messages sort_by insert_by text_eq count_unread
one_unread = refl
