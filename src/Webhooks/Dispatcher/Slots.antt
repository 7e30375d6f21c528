-- ===== src/Webhooks/Dispatcher/Slots.antt =====
-- The queues and the slots of webhooks/dispatcher.ts: which conversations run, and which wait.
use comdove_fake_backend.Base.{
  ℕ, zero, suc, not, List, [], ◌∷◌, ◌++◌, keep, length, ◌==◌, ltb, leb, if◌then◌else◌, or_else, max,
}
use comdove_fake_backend.Webhooks.JobStore.{NewJob, Job, Operations}
use comdove_fake_backend.Webhooks.Dispatcher.QueueMap.{queue_of, set_queue, has, shift}
use comdove_fake_backend.Webhooks.Dispatcher.Types.{
  starting, Options, Dispatcher, EnqueueInput, cid_of, is_running,
}

unfoldable pub max_running : Options → ℕ
max_running o = max 1 o.max_parallel

abbrev pub new_input : EnqueueInput → ℕ → NewJob
new_input j now = record {
  conversation_id = j.conversation_id;
  wamid = j.wamid;
  kind = j.kind;
  payload = j.body;
  not_before = or_else j.not_before 0;
  created_at = now;
}

module _ {S : Type 0} where
  unfoldable pub empty : S → Dispatcher S
  empty s = record {
    store = s;
    queues = [];
    running = [];
    waiting = [];
    orphans = [];
    requests = [];
    changes = [];
  }

  -- `runHead` up to its first `await`.
  unfoldable pub start : ℕ → Job → Dispatcher S → Dispatcher S
  start cid job d = record d {
    waiting = keep (λ id. not (id == cid)) d.waiting;
    running = d.running ++ record { job = job; phase = starting job.not_before } ∷ [];
  }

  unfoldable pub park : ℕ → Dispatcher S → Dispatcher S
  park cid d = if has cid d.waiting then d else record d { waiting = d.waiting ++ cid ∷ [] }

  unfoldable pub cancel_all : Dispatcher S → Dispatcher S
  cancel_all d = record d {
    orphans = d.orphans ++ d.running;
    queues = [];
    running = [];
    waiting = [];
  }

module _ {S : Type 0} (o : Options) where
  unfoldable pub pump_queue : ℕ → List Job → Dispatcher S → Dispatcher S
  unfolding park start
  pump_queue cid [] d = d
  pump_queue cid (job ∷ rest) d =
      if leb (max_running o) (length d.running) then park cid d else start cid job d

  unfoldable pub pump : ℕ → Dispatcher S → Dispatcher S
  unfolding pump_queue
  pump cid d = if is_running cid d.running then d else pump_queue cid (queue_of cid d.queues) d

  unfoldable pub push : Job → Dispatcher S → Dispatcher S
  unfolding pump
  push job d = pump job.conversation_id (record d {
    queues =
        set_queue job.conversation_id (queue_of job.conversation_id d.queues ++ job ∷ []) d.queues;
  })

  -- The `while` of the `finally` callback: a slot is free, so the longest-waiting one gets in.
  unfoldable pub admit : ℕ → ℕ → List ℕ → Dispatcher S → Dispatcher S
  unfolding pump
  admit zero cid ws d = d
  admit (suc fuel) cid [] d = d
  admit (suc fuel) cid (next ∷ ws) d =
      let d₁ = record d { waiting = ws } in
      let d₂ = if next == cid then d₁ else pump next d₁ in
      let rest = admit fuel cid d₂.waiting d₂ in
      if ltb (length d.running) (max_running o) then rest else d

  -- The `finally` callback of a run that no `cancelAll` has aborted.
  unfoldable pub settle : ℕ → Dispatcher S → Dispatcher S
  unfolding pump admit
  settle cid d =
      let d₁ = pump cid (record d {
        running = keep (λ t. not (cid_of t == cid)) d.running;
        queues = set_queue cid (shift (queue_of cid d.queues)) d.queues;
      }) in
      admit (length d₁.waiting) cid d₁.waiting d₁

module _ {S : Type 0} (store : Operations S) (o : Options) where
  unfoldable pub enqueue : EnqueueInput → ℕ → Dispatcher S → Job × Dispatcher S
  unfolding push
  enqueue j now d =
      let (job, s) = store.insert (new_input j now) d.store in
      (job, push o job (record d { store = s }))

  unfoldable pub push_all : List Job → Dispatcher S → Dispatcher S
  push_all [] d = d
  push_all (job ∷ jobs) d = push_all jobs (push o (record job { not_before = 0 }) d)

  unfoldable pub resume : Dispatcher S → Dispatcher S
  unfolding push_all
  resume d = push_all (store.pending_jobs d.store) d
