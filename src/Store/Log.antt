-- ===== src/Store/Log.antt =====
-- The log of core/messages.ts: what has become of each message, and the requests that the Meta
-- emulator has rejected. The webhooks of a message are read from the tables of the job store.
pub mod Order
pub mod Newest
use comdove_fake_backend.Base.{
  ltb, ◌==◌, if◌then◌else◌, keep, find, take, Text, text_eq, sort_by, ℕ, ◌+◌, Bool, Option, none,
  some, List, [], ◌∷◌, ◌++◌, map,
}
use comdove_fake_backend.Contract.Types.{
  MessageStatus, sent, delivered, read, StoredMessage, RejectedRequest,
}
use comdove_fake_backend.Contract.Events.{AttemptEntry, WebhookEntry, LogEntry, RejectedLogEntry}
use comdove_fake_backend.Store.Tables.{Db}
use comdove_fake_backend.Store.Registry.{get_business}
use comdove_fake_backend.Store.Messages.{all_messages, get_message}
use comdove_fake_backend.Webhooks.JobStore.{Attempt, JobRow, Tables}
use comdove_fake_backend.Live.Wire.{status_of, to_rejected_log_entry}

unfoldable pub log_rejected : RejectedRequest → Db → Db
log_rejected r db = record db { rejected_requests = db.rejected_requests ++ r ∷ [] }

-- `if (at) timeline.push({ status, at })`
abbrev pub timeline_step : MessageStatus → Option ℕ → List (MessageStatus × ℕ)
timeline_step status none = []
timeline_step status (some at) = if at == 0 then [] else (status, at) ∷ []

abbrev pub to_attempt_entry : Attempt → AttemptEntry
to_attempt_entry a = record {
  n = a.attempt;
  http_status = a.http_status;
  error = a.error;
  duration_ms = a.duration_ms;
  at = a.at;
}

abbrev pub by_attempt : Attempt → Attempt → Bool
by_attempt a b = ltb a.attempt b.attempt

unfoldable pub webhook_entry : Tables → JobRow → WebhookEntry
webhook_entry t j = record {
  kind = j.kind;
  state = j.state;
  attempts =
      map to_attempt_entry (sort_by by_attempt (keep (λ a. a.job_id == j.id) t.webhook_attempts));
}

abbrev pub by_id : JobRow → JobRow → Bool
by_id a b = ltb a.id b.id

unfoldable pub webhook_entries : Text → Tables → List WebhookEntry
unfolding webhook_entry
webhook_entries wamid t =
    map (webhook_entry t) (sort_by by_id (keep (λ j. text_eq j.wamid wamid) t.webhook_jobs))

unfoldable pub to_log_entry : Db → Tables → StoredMessage → LogEntry
unfolding webhook_entries
to_log_entry db t m = record {
  wamid = m.wamid;
  time = m.created_at;
  direction = m.direction;
  source = m.source;
  from = m.from_number;
  to = m.to_number;
  business = elim (get_business m.phone_number_id db) [
    | none ↦ none
    | some b ↦ some (b.phone_number_id, b.label)
  ];
  group_id = elim (find (λ c. text_eq c.number m.customer_number) db.customers) [
    | none ↦ none
    | some c ↦ some c.group_id
  ];
  body = m.body;
  status = status_of m.delivered_at m.read_at;
  timeline =
      timeline_step MessageStatus.sent m.sent_at
      ++ timeline_step MessageStatus.delivered m.delivered_at
      ++ timeline_step MessageStatus.read m.read_at;
  webhooks = webhook_entries m.wamid t;
}

unfoldable pub get_log_entry : Text → Db → Tables → Option LogEntry
unfolding to_log_entry
get_log_entry wamid db t = elim (get_message wamid db) [
  | none ↦ none
  | some m ↦ some (to_log_entry db t m)
]

-- `LogEntry | RejectedLogEntry`
pub data LogRow : Type 0 where
  logged : LogEntry → LogRow
  rejected : RejectedLogEntry → LogRow

abbrev pub time_of : LogRow → ℕ
time_of (logged e) = e.time
time_of (rejected r) = r.time

-- `ORDER BY … DESC` and `(a, b) => b.time - a.time`. Rows of one time stay in insertion order.
abbrev pub newer {ℓ} : {A : Type ℓ} → (A → ℕ) → A → A → Bool
newer time a b = ltb (time b) (time a)

unfoldable pub get_log : (limit : ℕ) → Db → Tables → List LogRow
unfolding to_log_entry
get_log limit db t =
    let rows = take limit (sort_by (newer (λ m. m.created_at)) (all_messages db)) in
    let refused = take limit (sort_by (newer (λ r. r.at)) db.rejected_requests) in
    take limit (
      sort_by (newer time_of) (
        map (λ m. logged (to_log_entry db t m)) rows
        ++ map (λ r. rejected (to_rejected_log_entry r)) refused))
