-- ===== src/Webhooks/Dispatcher/Traces.antt =====
-- The order of requests after every sequence of calls and turns of webhooks/dispatcher.ts.
use comdove_fake_backend.Contract.Events.{JobState, ok, failed}
use comdove_fake_backend.Contract.Events.{JobState, ok, failed}
use comdove_fake_backend.Base.{
  ltb, leb, ltb→lt, leb→le, Bool-cases, Option-cases, Text, ℕ, zero, suc, ◌+◌, ◌≤◌, ◌≡◌, refl, sym,
  ap, ◌∙◌, inl, inr, Bool, true, false, Option, none, some, List, [], ◌∷◌, arith,
}
use comdove_fake_backend.Webhooks.JobStore.{Job, Operations}
use comdove_fake_backend.Webhooks.Dispatcher.QueueMap.{queue_of}
use comdove_fake_backend.Webhooks.Dispatcher.Types.{
  Phase, starting, fetching, reading, judged, backing_off, settled, Task, Request, Options,
  Dispatcher, EnqueueInput, task_of, Wake, timer, response, failure, body_read, resumed, Event,
  enqueues, cancels, wakes, wakes_orphan,
}
use comdove_fake_backend.Webhooks.Dispatcher.Slots.{cancel_all, enqueue, new_input}
use comdove_fake_backend.Webhooks.Dispatcher.Turns.{
  attempt_row, max_attempts, changed, request, record_attempt, record_result, finish, conclude,
  conclude_result, turn, wake, orphan_turn, wake_orphans, wake_orphan, step, run,
}
use comdove_fake_backend.Webhooks.Dispatcher.Invariant.{Core, Inv, task_of-cases, restored-Core}
use comdove_fake_backend.Webhooks.Dispatcher.Scheduling.{record_attempt-Same, conclude-Same}
use comdove_fake_backend.Webhooks.Dispatcher.Runs.{wake_orphans-Same, step-Inv}
use comdove_fake_backend.Webhooks.Dispatcher.Order.{
  latest, Follows, Clear, Sent, Matches, Laws, moved-Ordered,
}
use comdove_fake_backend.Webhooks.Dispatcher.Sequence.{
  All-suc, Clear-mono, Ord, rephased-Ordered, fetched-Ordered,
}
use comdove_fake_backend.Webhooks.Dispatcher.Fifo.{settle-Ordered, push-Ordered}

module _ {S : Type 0} (store : Operations S) (laws : Laws store) (hmac : Text → Text → Text)
    (o : Options) where
  changed_fresh :
      (id : ℕ) (d : Dispatcher S)
      → laws.fresh (changed store hmac o id d).store ≡ laws.fresh d.store
  unfolding changed
  changed_fresh id d = elim (Option-cases (store.get id d.store)) [
    | inl e ↦ rw (e, changed) refl
    | inr (job, e) ↦ rw (e, changed) refl
  ]

  record_attempt_fresh :
      (job : Job) (n started : ℕ) (status : Option ℕ) (error : Option Text) (now : ℕ)
      (d : Dispatcher S)
      → laws.fresh (record_attempt store hmac o job n started status error now d).1.store
        ≡ laws.fresh d.store
  unfolding record_attempt
  record_attempt_fresh job n started status error now d =
      let row = attempt_row job n started status error now in
      elim (Option-cases (store.add_attempt row d.store)) [
        | inl e ↦ rw (e, record_attempt) refl
        | inr (s, e) ↦
            rw (e, record_attempt)
              (changed_fresh job.id (record d { store = s })
                ∙ laws.add_attempt_fresh row d.store s e)
      ]

  finish_fresh :
      (job : Job) (state : JobState) (now : ℕ) (d : Dispatcher S)
      → laws.fresh (finish store hmac o job state now d).store ≡ laws.fresh d.store
  unfolding finish
  finish_fresh job state now d =
      changed_fresh job.id (record d { store = store.finish job.id state now d.store })
      ∙ laws.finish_fresh job.id state now d.store

  conclude_fresh :
      (job : Job) (n : ℕ) (passed : Bool) (now : ℕ) (d : Dispatcher S)
      → laws.fresh (conclude store hmac o job n passed now d).1.store ≡ laws.fresh d.store
  unfolding conclude
  conclude_fresh job n true now d = finish_fresh job ok now d
  conclude_fresh job n false now d = elim (Bool-cases (ltb n (max_attempts o))) [
    | inl e ↦ rw e refl
    | inr e ↦ rw e (finish_fresh job failed now d)
  ]

  Sent-settled :
      (last : Option Request) (job : Job) (n : ℕ) → Sent last job n o → Matches o last job settled
  Sent-settled none job n h = absurd h
  Sent-settled (some q) job n (e, _, _, _) = rw e (omega arith)

  record_attempt-Matches :
      (last : Option Request) (job : Job) (n started : ℕ) (status : Option ℕ) (error : Option Text)
      (now : ℕ) (d : Dispatcher S)
      → Sent last job n o
      → Matches o last job (record_attempt store hmac o job n started status error now d).0
  unfolding record_attempt
  record_attempt-Matches last job n started status error now d h =
      elim (Option-cases (store.add_attempt (attempt_row job n started status error now) d.store)) [
        | inl e ↦ rw (e, record_attempt) (Sent-settled last job n h)
        | inr (s, e) ↦ rw (e, record_attempt) h
      ]

  conclude-Matches :
      (last : Option Request) (job : Job) (n : ℕ) (passed : Bool) (now : ℕ) (d : Dispatcher S)
      → Sent last job n o
      → Matches o last job (conclude store hmac o job n passed now d).0
  unfolding conclude
  conclude-Matches last job n true now d h = Sent-settled last job n h
  conclude-Matches last job n false now d h = elim (Bool-cases (ltb n (max_attempts o))) [
    | inl e ↦ rw e (h, ltb→lt _ _ e)
    | inr e ↦ rw e (Sent-settled last job n h)
  ]

  first_Follows :
      (last : Option Request) (job : Job) (now : ℕ)
      → Clear last job.id
      → Follows last (request store hmac o job 1 now)
  unfolding request
  first_Follows none job now c = refl
  first_Follows (some q) job now c = inr (c, refl)

  next_Follows :
      (last : Option Request) (job : Job) (n now : ℕ)
      → Sent last job n o
      → Follows last (request store hmac o job (n + 1) now)
  unfolding request
  next_Follows none job n now h = absurd h
  next_Follows (some q) job n now (e, a, _, _) = inl (sym e, ap (λ (k : ℕ). k + 1) (sym a))

  Sent-pos : (last : Option Request) (job : Job) (n : ℕ) → Sent last job n o → 1 ≤ n
  Sent-pos none job n h = absurd h
  Sent-pos (some q) job n h = h.2

  turn-Ordered :
      (cid : ℕ) (job : Job) (p : Phase) (w : Wake) (now : ℕ) (d : Dispatcher S)
      → Core o d
      → task_of cid d.running ≡ some (record { job = job; phase = p })
      → job.conversation_id ≡ cid
      → Ord store laws hmac o d
      → Ord store laws hmac o (turn store hmac o cid job p w now d)
  unfolding turn record_result conclude_result max_attempts
  turn-Ordered cid job (starting until) timer now d c found own v =
      elim (Bool-cases (leb until now)) [
        | inl e ↦
            let t : Task = record { job = job; phase = starting until } in
            let (clear, when) = v.tasks cid t found in
            let (rest, q) = c.heads cid t found in
            rw e (
              fetched-Ordered store laws hmac o cid 1 now t d found own (rw q at (v.below cid)).0
                (first_Follows (latest cid d.requests) job now clear) (omega arith) (omega arith)
                (λ _. rw (← when) (leb→le until now e)) v)
        | inr e ↦ rw e v
      ]
  turn-Ordered cid job (backing_off n until) timer now d c found own v =
      elim (Bool-cases (leb until now)) [
        | inl e ↦
            let t : Task = record { job = job; phase = backing_off n until } in
            let (at_n, more) = v.tasks cid t found in
            let (rest, q) = c.heads cid t found in
            rw e (
              fetched-Ordered store laws hmac o cid (n + 1) now t d found own
                (rw q at (v.below cid)).0 (next_Follows (latest cid d.requests) job n now at_n)
                (omega arith) (omega arith)
                (λ one. absurd (omega (arith, Sent-pos (latest cid d.requests) job n at_n))) v)
        | inr e ↦ rw e v
      ]
  turn-Ordered cid job (fetching n started) (response status) now d c found own v =
      let t : Task = record { job = job; phase = fetching n started } in
      rephased-Ordered store laws hmac o cid t (reading n started status) d _ refl refl refl refl
        found (v.tasks cid t found) v
  turn-Ordered cid job (fetching n started) (failure error) now d c found own v =
      let t : Task = record { job = job; phase = fetching n started } in
      let s = record_attempt-Same store hmac o job n started none (some error) now d in
      rephased-Ordered store laws hmac o cid t _ d _ s.queues (rw s.running refl) s.requests
        (record_attempt_fresh job n started none (some error) now d) found
        (record_attempt-Matches _ job n started none (some error) now d (v.tasks cid t found)) v
  turn-Ordered cid job (reading n started status) body_read now d c found own v =
      let t : Task = record { job = job; phase = reading n started status } in
      let s = record_attempt-Same store hmac o job n started (some status) none now d in
      rephased-Ordered store laws hmac o cid t _ d _ s.queues (rw s.running refl) s.requests
        (record_attempt_fresh job n started (some status) none now d) found
        (record_attempt-Matches _ job n started (some status) none now d (v.tasks cid t found)) v
  turn-Ordered cid job (judged n passed) resumed now d c found own v =
      let t : Task = record { job = job; phase = judged n passed } in
      let s = conclude-Same store hmac o job n passed now d in
      rephased-Ordered store laws hmac o cid t _ d _ s.queues (rw s.running refl) s.requests
        (conclude_fresh job n passed now d) found
        (conclude-Matches _ job n passed now d (v.tasks cid t found)) v
  turn-Ordered cid job settled resumed now d c found own v =
      settle-Ordered store laws hmac o cid (record { job = job; phase = settled }) d c found refl v
  turn-Ordered cid job _ _ now d c found own v = v

  wake-Ordered :
      (cid : ℕ) (w : Wake) (now : ℕ) (d : Dispatcher S)
      → Core o d
      → Ord store laws hmac o d
      → Ord store laws hmac o (wake store hmac o cid w now d)
  unfolding wake
  wake-Ordered cid w now d c v = elim (task_of-cases cid d.running) [
    | inl (off, e) ↦ rw (e, wake) v
    | inr (t, on, e, same) ↦ rw (e, wake) (turn-Ordered cid t.job t.phase w now d c e same v)
  ]

  orphan_turn_fresh :
      (job : Job) (p : Phase) (w : Wake) (now : ℕ) (d : Dispatcher S)
      → laws.fresh (orphan_turn store hmac o job p w now d).1.store ≡ laws.fresh d.store
  unfolding orphan_turn
  orphan_turn_fresh job (reading n started status) body_read now d =
      record_attempt_fresh job n started (some status) none now d
  orphan_turn_fresh job (judged n passed) resumed now d = conclude_fresh job n passed now d
  orphan_turn_fresh job (starting until) resumed now d = refl
  orphan_turn_fresh job (backing_off n until) resumed now d = refl
  orphan_turn_fresh job (fetching n started) resumed now d = refl
  orphan_turn_fresh job _ _ now d = refl

  wake_orphans_fresh :
      (ts : List Task) (i : ℕ) (w : Wake) (now : ℕ) (d : Dispatcher S)
      → laws.fresh (wake_orphans store hmac o ts i w now d).1.store ≡ laws.fresh d.store
  unfolding wake_orphans
  wake_orphans_fresh [] i w now d = refl
  wake_orphans_fresh (t ∷ ts) zero w now d = orphan_turn_fresh t.job t.phase w now d
  wake_orphans_fresh (t ∷ ts) (suc i) w now d = wake_orphans_fresh ts i w now d

  -- A new job is put behind all that is queued or sent.
  enqueue-Ordered :
      (j : EnqueueInput) (now : ℕ) (d : Dispatcher S)
      → Core o d
      → Ord store laws hmac o d
      → Ord store laws hmac o (enqueue store o j now d).1
  unfolding enqueue
  enqueue-Ordered j now d c v =
      let input = new_input j now in
      let s = (store.insert input d.store).1 in
      let job = (store.insert input d.store).0 in
      let id_is : job.id ≡ laws.fresh d.store =
        ap (λ (k : Job). k.id) (laws.insert_job input d.store) in
      let d' = record d { store = s } in
      let up : laws.fresh s ≡ suc (laws.fresh d.store) = laws.insert_fresh input d.store in
      let v' : Ord store laws hmac o d' = record {
        chain = v.chain;
        sorted = v.sorted;
        below = λ k. rw up (All-suc (queue_of k d.queues) (laws.fresh d.store) (v.below k));
        last_below = λ k. rw up (Clear-mono (latest k d.requests) (omega arith) (v.last_below k));
        tasks = v.tasks;
        idle = v.idle;
      } in
      push-Ordered store laws hmac o job d' (restored-Core o d d' refl refl c)
        (rw id_is (v.below job.conversation_id)) (rw id_is (v.last_below job.conversation_id))
        (omega arith) v'

  pub step-Ordered :
      (e : ℕ × Event) (d : Dispatcher S)
      → Core o d
      → Ord store laws hmac o d
      → Ord store laws hmac o (step store hmac o e d)
  unfolding step wake_orphan cancel_all queue_of
  step-Ordered (now, enqueues j) d c v = enqueue-Ordered j now d c v
  step-Ordered (now, cancels) d c v = record {
    chain = v.chain;
    sorted = λ k. tt;
    below = λ k. tt;
    last_below = v.last_below;
    tasks = λ k t found. cc;
    idle = λ k j rest off q. cc;
  }
  step-Ordered (now, wakes cid w) d c v = wake-Ordered cid w now d c v
  step-Ordered (now, wakes_orphan i w) d c v =
      let s = wake_orphans-Same store hmac o d.orphans i w now d in
      moved-Ordered store laws hmac o d _ s.queues s.running s.requests
        (wake_orphans_fresh d.orphans i w now d) v

  pub run_from-Ordered :
      (es : List (ℕ × Event)) (d : Dispatcher S)
      → Inv o d
      → Ord store laws hmac o d
      → Ord store laws hmac o (run store hmac o es d)
  unfolding run
  run_from-Ordered [] d i v = v
  run_from-Ordered (e ∷ es) d i v =
      run_from-Ordered es (step store hmac o e d) (step-Inv store hmac o e d i)
        (step-Ordered e d i.core v)
