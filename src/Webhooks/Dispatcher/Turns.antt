-- ===== src/Webhooks/Dispatcher/Turns.antt =====
-- The turns of a task of webhooks/dispatcher.ts, and webhooks/sign.ts.
use comdove_fake_backend.Base.{
  ℕ, zero, suc, ◌+◌, ◌-◌, Text, lit, Bool, Option, none, some, List, [], ◌∷◌, ◌++◌, length, ltb,
  leb, if◌then◌else◌,
}
use comdove_fake_backend.Contract.Events.{JobState, ok, failed}
use comdove_fake_backend.Webhooks.JobStore.{Attempt, Job, Operations}
use comdove_fake_backend.Webhooks.Dispatcher.Types.{
  Phase, starting, fetching, reading, judged, backing_off, settled, Task, Request, Options,
  Dispatcher, task_of, set_phase, delay_at, is_200, Wake, timer, response, failure, body_read,
  resumed, Event, enqueues, cancels, wakes, wakes_orphan, aborted_phase,
}
use comdove_fake_backend.Webhooks.Dispatcher.Slots.{enqueue, cancel_all, settle}

abbrev pub attempt_row : Job → ℕ → ℕ → Option ℕ → Option Text → ℕ → Attempt
attempt_row job n started status error now = record {
  job_id = job.id;
  attempt = n;
  http_status = status;
  error = error;
  duration_ms = now - started;
  at = now;
}

unfoldable pub max_attempts : Options → ℕ
max_attempts o = length o.retry_delays + 1

-- sign.ts; `hmac` is the hex digest of node:crypto.
unfoldable pub sign : (Text → Text → Text) → Text → Text → Text
sign hmac raw app_secret = lit "sha256=" ++ hmac app_secret raw

module _ {S : Type 0} (store : Operations S) (hmac : Text → Text → Text) (o : Options) where
  -- `changed`
  unfoldable pub changed : ℕ → Dispatcher S → Dispatcher S
  changed id d = elim (store.get id d.store) [
    | none ↦ d
    | some job ↦ record d { changes = job.wamid ∷ d.changes }
  ]

  -- `attempt`, up to its `fetch`.
  unfoldable pub request : Job → ℕ → ℕ → Request
  unfolding sign
  request job n now = record {
    job = job;
    attempt = n;
    at = now;
    body = job.payload;
    signature = sign hmac job.payload o.secret;
  }

  -- `attempt`, from `addAttempt` on: the next phase, `settled` where `addAttempt` throws.
  unfoldable pub record_attempt :
      Job → ℕ → ℕ → Option ℕ → Option Text → ℕ → Dispatcher S → Phase × Dispatcher S
  unfolding changed
  record_attempt job n started status error now d =
      elim (store.add_attempt (attempt_row job n started status error now) d.store) [
        | none ↦ (settled, d)
        | some s ↦ (judged n (is_200 status), changed job.id (record d { store = s }))
      ]

  -- The `for` loop of `runHead` calls `attempt`, which calls `fetch`.
  unfoldable pub fetch : ℕ → Job → ℕ → ℕ → Dispatcher S → Dispatcher S
  unfolding request
  fetch cid job n now d = record d {
    running = set_phase cid (fetching n now) d.running;
    requests = request job n now ∷ d.requests;
  }

  unfoldable pub record_result :
      ℕ → Job → ℕ → ℕ → Option ℕ → Option Text → ℕ → Dispatcher S → Dispatcher S
  unfolding record_attempt
  record_result cid job n started status error now d =
      let (p, d') = record_attempt job n started status error now d in
      record d' { running = set_phase cid p d'.running }

  -- `o.store.finish` with its `changed`, at the end of `runHead`.
  unfoldable pub finish : Job → JobState → ℕ → Dispatcher S → Dispatcher S
  unfolding changed
  finish job state now d =
      changed job.id (record d { store = store.finish job.id state now d.store })

  -- `runHead` after an `attempt` has returned: the next phase.
  unfoldable pub conclude : Job → ℕ → Bool → ℕ → Dispatcher S → Phase × Dispatcher S
  unfolding finish
  conclude job n passed now d =
      if passed
      then (settled, finish job ok now d)
      else if ltb n (max_attempts o)
      then (backing_off n (now + delay_at n o.retry_delays), d)
      else (settled, finish job failed now d)

  unfoldable pub conclude_result : ℕ → Job → ℕ → Bool → ℕ → Dispatcher S → Dispatcher S
  unfolding conclude
  conclude_result cid job n passed now d =
      let (p, d') = conclude job n passed now d in
      record d' { running = set_phase cid p d'.running }

  -- One turn of the event loop for the task of conversation `cid`; a wake that its `await` does
  -- not wait for changes nothing.
  unfoldable pub turn : ℕ → Job → Phase → Wake → ℕ → Dispatcher S → Dispatcher S
  unfolding fetch record_result conclude_result settle
  turn cid job (starting until) timer now d = if leb until now then fetch cid job 1 now d else d
  turn cid job (backing_off n until) timer now d =
      if leb until now then fetch cid job (n + 1) now d else d
  turn cid job (fetching n started) (response status) now d = record d {
    running = set_phase cid (reading n started status) d.running;
  }
  turn cid job (fetching n started) (failure error) now d =
      record_result cid job n started none (some error) now d
  turn cid job (reading n started status) body_read now d =
      record_result cid job n started (some status) none now d
  turn cid job (judged n passed) resumed now d = conclude_result cid job n passed now d
  turn cid job settled resumed now d = settle o cid d
  turn cid job p w now d = d

  unfoldable pub wake : ℕ → Wake → ℕ → Dispatcher S → Dispatcher S
  unfolding turn
  wake cid w now d = elim (task_of cid d.running) [
    | none ↦ d
    | some t ↦ turn cid t.job t.phase w now d
  ]

  -- A turn of a task whose signal is aborted: `sleep` and `fetch` reject with `Cancelled`, and
  -- `finally` leaves the queues alone. An attempt whose response is there is still recorded.
  unfoldable pub orphan_turn : Job → Phase → Wake → ℕ → Dispatcher S → Phase × Dispatcher S
  unfolding record_attempt conclude
  orphan_turn job (starting until) resumed now d = (settled, d)
  orphan_turn job (backing_off n until) resumed now d = (settled, d)
  orphan_turn job (fetching n started) resumed now d = (settled, d)
  orphan_turn job (reading n started status) body_read now d =
      record_attempt job n started (some status) none now d
  orphan_turn job (judged n passed) resumed now d =
      let (p, d') = conclude job n passed now d in (aborted_phase p, d')
  orphan_turn job p w now d = (p, d)

  unfoldable pub wake_orphans : List Task → ℕ → Wake → ℕ → Dispatcher S → List Task × Dispatcher S
  unfolding orphan_turn
  wake_orphans [] i w now d = ([], d)
  wake_orphans (t ∷ ts) zero w now d =
      let (p, d') = orphan_turn t.job t.phase w now d in (record t { phase = p } ∷ ts, d')
  wake_orphans (t ∷ ts) (suc i) w now d = let (ts', d') = wake_orphans ts i w now d in (t ∷ ts', d')

  unfoldable pub wake_orphan : ℕ → Wake → ℕ → Dispatcher S → Dispatcher S
  unfolding wake_orphans
  wake_orphan i w now d =
      let (ts, d') = wake_orphans d.orphans i w now d in record d' { orphans = ts }

  -- One event: a call of the interface, or a turn of a task.
  unfoldable pub step : ℕ × Event → Dispatcher S → Dispatcher S
  unfolding enqueue cancel_all wake wake_orphan
  step (now, enqueues j) d = (enqueue store o j now d).1
  step (now, cancels) d = cancel_all d
  step (now, wakes cid w) d = wake cid w now d
  step (now, wakes_orphan i w) d = wake_orphan i w now d

  unfoldable pub run : List (ℕ × Event) → Dispatcher S → Dispatcher S
  unfolding step
  run [] d = d
  run (e ∷ es) d = run es (step e d)
