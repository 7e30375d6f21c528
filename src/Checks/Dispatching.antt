-- ===== src/Checks/Dispatching.antt =====
-- The dispatcher of webhooks/dispatcher.ts on a store with two pending jobs.
use comdove_fake_backend.Base.{
  Text, lit, ℕ, ◌+◌, ◌*◌, ◌≡◌, refl, none, List, [], ◌∷◌, ◌++◌, map, arith,
}
use comdove_fake_backend.Contract.Events.{JobKind, pending}
use comdove_fake_backend.Webhooks.JobStore.{JobRow, Tables, sqlite_store}
use comdove_fake_backend.Webhooks.Dispatcher.Types.{
  Options, set_phase, delay_at, timer, response, failure, body_read, resumed, Event, wakes,
}
use comdove_fake_backend.Webhooks.Dispatcher.QueueMap.{queue_of, set_queue}
use comdove_fake_backend.Webhooks.Dispatcher.Slots.{max_running, empty, resume}
use comdove_fake_backend.Webhooks.Dispatcher.Turns.{max_attempts, run}
use comdove_fake_backend.Webhooks.Dispatcher.Invariant.{Inv}
use comdove_fake_backend.Webhooks.Dispatcher.Order.{InOrder}
use comdove_fake_backend.Webhooks.Dispatcher.Runs.{run-Inv}
use comdove_fake_backend.Webhooks.Dispatcher.Boot.{run-InOrder}
use comdove_fake_backend.Webhooks.Dispatcher.Stores.{sqlite_laws}

abbrev plain_hmac : Text → Text → Text
plain_hmac key raw = key ++ raw

abbrev pub two_attempts : Options
two_attempts = record { secret = lit "s"; retry_delays = 1000 ∷ []; max_parallel = 1 }

abbrev pending_row : ℕ → ℕ → JobRow
pending_row id cid = record {
  id = id;
  conversation_id = cid;
  wamid = lit "w";
  kind = JobKind.sent;
  payload = lit "{}";
  state = pending;
  created_at = 5;
  finished_at = none;
}

abbrev pub two_pending : Tables
two_pending = record {
  webhook_jobs = pending_row 1 7 ∷ pending_row 2 7 ∷ [];
  webhook_attempts = [];
  next_id = 3;
}

-- The first job fails once and passes; the second starts.
abbrev some_events : List (ℕ × Event)
some_events =
    (10, wakes 7 timer)
    ∷ (11, wakes 7 (failure (lit "ECONNREFUSED")))
    ∷ (11, wakes 7 resumed)
    ∷ (1011, wakes 7 timer)
    ∷ (1012, wakes 7 (response 200))
    ∷ (1013, wakes 7 body_read)
    ∷ (1013, wakes 7 resumed)
    ∷ (1013, wakes 7 resumed)
    ∷ (1014, wakes 7 timer)
    ∷ []

run-Inv_example : Inv two_attempts (
    run sqlite_store plain_hmac two_attempts some_events
      (resume sqlite_store two_attempts (empty two_pending)))
run-Inv_example = run-Inv sqlite_store plain_hmac two_attempts two_pending some_events

run-InOrder_example :
    InOrder plain_hmac two_attempts
      (run sqlite_store plain_hmac two_attempts some_events
        (resume sqlite_store two_attempts (empty two_pending))).requests
unfolding sqlite_store
run-InOrder_example =
    run-InOrder sqlite_store sqlite_laws plain_hmac two_attempts two_pending some_events
      (record { ascending = (omega arith, tt); below = (omega arith, (omega arith, tt)) })

-- Three requests are sent, told by job and attempt: two attempts of job 1, then the first of job 2.
three_requests :
    map
      (λ r. r.job.id * 10 + r.attempt)
      (run sqlite_store plain_hmac two_attempts some_events
        (resume sqlite_store two_attempts (empty two_pending))).requests
    ≡ 21 ∷ 12 ∷ 11 ∷ []
unfolding sqlite_store run resume empty queue_of set_queue max_running set_phase max_attempts
    delay_at
three_requests = refl
