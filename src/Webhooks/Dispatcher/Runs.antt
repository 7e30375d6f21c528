-- ===== src/Webhooks/Dispatcher/Runs.antt =====
-- The scheduling invariant of webhooks/dispatcher.ts holds after every sequence of calls and turns.
use comdove_fake_backend.Webhooks.Dispatcher.Scheduling.{
  conclude-Same, wake-Inv, record_attempt-Same, Same-refl, Same,
}
use comdove_fake_backend.Webhooks.Dispatcher.Turns.{wake_orphan, wake_orphans}
use comdove_fake_backend.Webhooks.Dispatcher.Turns.{run}
use comdove_fake_backend.Webhooks.Dispatcher.Turns.{orphan_turn}
use comdove_fake_backend.Webhooks.Dispatcher.Turns.{step}
use comdove_fake_backend.Base.{
  ◌==◌, Bool-cases, All-append, Text, ℕ, ◌≡◌, refl, inl, inr, false, [], ◌∷◌, ◌++◌, arith, zero,
  suc, none, some, List,
}
use comdove_fake_backend.Webhooks.JobStore.{Job, Operations}
use comdove_fake_backend.Webhooks.Dispatcher.QueueMap.{queue_of, set_queue, queue_of-set_queue}
use comdove_fake_backend.Webhooks.Dispatcher.Types.{
  Options, Dispatcher, Phase, starting, fetching, reading, judged, backing_off, Task, Wake,
  body_read, resumed, Event, enqueues, cancels, wakes, wakes_orphan,
}
use comdove_fake_backend.Webhooks.Dispatcher.Slots.{
  empty, start, park, cancel_all, pump, push, enqueue, push_all, resume,
}
use comdove_fake_backend.Webhooks.Dispatcher.Invariant.{
  restored-Core, Core, Covered, Full, Inv, pump-Pumps, pump-Core,
}
use comdove_fake_backend.Webhooks.Dispatcher.Coverage.{pump-Covered_self, pump-Covered}

module _ {S : Type 0} (store : Operations S) (hmac : Text → Text → Text) (o : Options) where
  abbrev pub queued : Job → Dispatcher S → Dispatcher S
  queued job d = record d {
    queues =
        set_queue job.conversation_id (queue_of job.conversation_id d.queues ++ job ∷ []) d.queues;
  }

  pub queued-Core : (job : Job) (d : Dispatcher S) → Core o d → Core o (queued job d)
  queued-Core job d c =
      let cid = job.conversation_id in
      let q = queue_of cid d.queues ++ job ∷ [] in
      record {
        bounded = c.bounded;
        distinct = c.distinct;
        owned = λ k. rw (queue_of-set_queue cid k q d.queues) (elim (Bool-cases (cid == k)) [
          | inl e ↦
              let same : cid ≡ k = ground arith in
              rw e (
                All-append (λ j. j.conversation_id ≡ k) (queue_of cid d.queues) (job ∷ [])
                  (rw (← same) (c.owned cid)) (same, tt))
          | inr e ↦ rw e (c.owned k)
        ]);
        heads = λ k t found.
            let (rest, front) = c.heads k t found in
            rw (queue_of-set_queue cid k q d.queues) (elim (Bool-cases (cid == k)) [
              | inl e ↦
                  let same : cid ≡ k = ground arith in
                  rw e (rest ++ job ∷ [], rw (same, front) refl)
              | inr e ↦ rw e (rest, front)
            ]);
      }

  queued-Covered :
      (k : ℕ) (job : Job) (d : Dispatcher S)
      → (job.conversation_id == k) ≡ false
      → Covered o k d
      → Covered o k (queued job d)
  queued-Covered k job d e cov = ground (
    arith,
    queue_of-set_queue job.conversation_id k (queue_of job.conversation_id d.queues ++ job ∷ [])
        d.queues,
  )

  pump-Full : (cid : ℕ) (d : Dispatcher S) → Full o d → Full o (pump o cid d)
  unfolding start park
  pump-Full cid d f = elim (pump-Pumps o cid d) [
    | inl (e, _) ↦ rw e f
    | inr (inl (e, taken)) ↦ rw e (inr (ground arith))
    | inr (inr (job, rest, e, q, idle, free)) ↦
        rw e (elim f [ inl w ↦ inl (rw w refl) | inr taken ↦ absurd (omega arith) ])
  ]

  pub push-Inv : (job : Job) (d : Dispatcher S) → Inv o d → Inv o (push o job d)
  unfolding push
  push-Inv job d v =
      let cid = job.conversation_id in
      let c = queued-Core job d v.core in
      record {
        core = pump-Core o cid (queued job d) c;
        covered = λ k. elim (Bool-cases (cid == k)) [
          | inl e ↦
              let same : k ≡ cid = ground arith in
              rw same (pump-Covered_self o cid (queued job d) c)
          | inr e ↦ pump-Covered o k cid (queued job d) c (queued-Covered k job d e (v.covered k))
        ];
        full = pump-Full cid (queued job d) v.full;
      }

  -- A change of the store, of the trace or of the orphans is none of the queues.
  restored-Inv :
      (d d' : Dispatcher S)
      → d'.queues ≡ d.queues
      → d'.waiting ≡ d.waiting
      → d'.running ≡ d.running
      → Inv o d
      → Inv o d'
  restored-Inv d d' eq ew er v = record {
    core = restored-Core o d d' eq er v.core;
    covered = λ k. rw (eq, er, ew) (v.covered k);
    full = rw (ew, er) v.full;
  }

  pub empty-Inv : (s : S) → Inv o (empty s)
  unfolding empty queue_of
  empty-Inv s = record {
    core = record {
      bounded = omega arith;
      distinct = tt;
      owned = λ k. tt;
      heads = λ k t found. cc;
    };
    covered = λ k. inl refl;
    full = inl refl;
  }

  cancel_all-Inv : (d : Dispatcher S) → Inv o (cancel_all d)
  unfolding cancel_all queue_of
  cancel_all-Inv d = record {
    core = record {
      bounded = omega arith;
      distinct = tt;
      owned = λ k. tt;
      heads = λ k t found. cc;
    };
    covered = λ k. inl refl;
    full = inl refl;
  }

  pub orphan_turn-Same :
      (job : Job) (p : Phase) (w : Wake) (now : ℕ) (d : Dispatcher S)
      → Same store hmac o d (orphan_turn store hmac o job p w now d).1
  unfolding orphan_turn
  orphan_turn-Same job (reading n started status) body_read now d =
      record_attempt-Same store hmac o job n started (some status) none now d
  orphan_turn-Same job (judged n passed) resumed now d =
      conclude-Same store hmac o job n passed now d
  orphan_turn-Same job (starting until) resumed now d = Same-refl store hmac o d
  orphan_turn-Same job (backing_off n until) resumed now d = Same-refl store hmac o d
  orphan_turn-Same job (fetching n started) resumed now d = Same-refl store hmac o d
  orphan_turn-Same job _ _ now d = Same-refl store hmac o d

  pub wake_orphans-Same :
      (ts : List Task) (i : ℕ) (w : Wake) (now : ℕ) (d : Dispatcher S)
      → Same store hmac o d (wake_orphans store hmac o ts i w now d).1
  unfolding wake_orphans
  wake_orphans-Same [] i w now d = Same-refl store hmac o d
  wake_orphans-Same (t ∷ ts) zero w now d = orphan_turn-Same t.job t.phase w now d
  wake_orphans-Same (t ∷ ts) (suc i) w now d = wake_orphans-Same ts i w now d

  pub step-Inv : (e : ℕ × Event) (d : Dispatcher S) → Inv o d → Inv o (step store hmac o e d)
  unfolding step enqueue wake_orphan
  step-Inv (now, enqueues j) d v = push-Inv _ _ (restored-Inv d _ refl refl refl v)
  step-Inv (now, cancels) d v = cancel_all-Inv d
  step-Inv (now, wakes cid w) d v = wake-Inv store hmac o cid w now d v
  step-Inv (now, wakes_orphan i w) d v =
      let same = wake_orphans-Same d.orphans i w now d in
      restored-Inv d _ same.queues same.waiting same.running v

  pub run_from-Inv :
      (es : List (ℕ × Event)) (d : Dispatcher S) → Inv o d → Inv o (run store hmac o es d)
  unfolding run
  run_from-Inv [] d v = v
  run_from-Inv (e ∷ es) d v = run_from-Inv es (step store hmac o e d) (step-Inv e d v)

  pub push_all-Inv :
      (jobs : List Job) (d : Dispatcher S) → Inv o d → Inv o (push_all store o jobs d)
  unfolding push_all
  push_all-Inv [] d v = v
  push_all-Inv (job ∷ jobs) d v = push_all-Inv jobs _ (push-Inv _ d v)

  -- A dispatcher that has resumed the pending jobs of its store and then run any calls and turns,
  -- in any order, has at most `max(1, maxParallel)` tasks, at most one for a conversation, each
  -- working on the head of its conversation's queue; every conversation with queued work runs or
  -- waits for a slot, and conversations wait only while all slots are taken.
  pub run-Inv :
      (s : S) (es : List (ℕ × Event)) → Inv o (run store hmac o es (resume store o (empty s)))
  unfolding resume empty
  run-Inv s es = run_from-Inv es _ (push_all-Inv (store.pending_jobs s) (empty s) (empty-Inv s))
