-- ===== src/Webhooks/Dispatcher/Boot.antt =====
-- From the boot of webhooks/dispatcher.ts on: `resume`, then any calls and turns.
use comdove_fake_backend.Base.{
  ◌==◌, Bool-cases, All, All-append, Text, ℕ, ◌≤◌, ◌<◌, ◌≡◌, refl, ◌∙◌, inl, inr, List, [], ◌∷◌,
  ◌++◌, arith,
}
use comdove_fake_backend.Webhooks.JobStore.{Job, Operations}
use comdove_fake_backend.Webhooks.Dispatcher.QueueMap.{queue_of, queue_of-set_queue}
use comdove_fake_backend.Webhooks.Dispatcher.Types.{Options, Dispatcher, Event}
use comdove_fake_backend.Webhooks.Dispatcher.Slots.{empty, start, park, push, push_all, resume}
use comdove_fake_backend.Webhooks.Dispatcher.Turns.{run}
use comdove_fake_backend.Webhooks.Dispatcher.Invariant.{Inv, Pumps, pump-Pumps}
use comdove_fake_backend.Webhooks.Dispatcher.Coverage.{Pumps-queues}
use comdove_fake_backend.Webhooks.Dispatcher.Runs.{queued, push-Inv, empty-Inv, push_all-Inv}
use comdove_fake_backend.Webhooks.Dispatcher.Order.{InOrder, Ascending, Laws}
use comdove_fake_backend.Webhooks.Dispatcher.Sequence.{Ord}
use comdove_fake_backend.Webhooks.Dispatcher.Fifo.{push-Ordered}
use comdove_fake_backend.Webhooks.Dispatcher.Traces.{run_from-Ordered}

All-below_mono : (q : List Job) {m n : ℕ} → m ≤ n → All (λ j. j.id < m) q → All (λ j. j.id < n) q
All-below_mono [] h b = tt
All-below_mono (j ∷ q) h b = (omega arith, All-below_mono q h b.1)

module _ {S : Type 0} (store : Operations S) (laws : Laws store) (hmac : Text → Text → Text)
    (o : Options) where
  -- Every queued job comes before the first of these.
  abbrev Before : Dispatcher S → List Job → Type 0
  Before d [] = Unit
  Before d (j ∷ js) = (cid : ℕ) → All (λ k. k.id < j.id) (queue_of cid d.queues)

  pushed-Before :
      (j k : Job) (d : Dispatcher S)
      → j.id < k.id
      → ((cid : ℕ) → All (λ x. x.id < j.id) (queue_of cid d.queues))
      → (cid : ℕ) → All (λ x. x.id < k.id) (queue_of cid (push o j d).queues)
  unfolding push
  pushed-Before j k d up b cid =
      let c = j.conversation_id in
      let q = queue_of c d.queues ++ j ∷ [] in
      rw
        (
          Pumps-queues o c _ _ (pump-Pumps o c (queued store hmac o j d)),
          queue_of-set_queue c cid q d.queues,
        )
        (elim (Bool-cases (c == cid)) [
          | inl e ↦ rw e (
              All-append (λ x. x.id < k.id) (queue_of c d.queues) (j ∷ [])
                (All-below_mono (queue_of c d.queues) {m = j.id} {n = k.id} (omega arith) (b c))
                (up, tt))
          | inr e ↦
              rw e
                (All-below_mono (queue_of cid d.queues) {m = j.id} {n = k.id} (omega arith) (b cid))
        ])

  Pumps-store :
      (cid : ℕ) (d d' : Dispatcher S)
      → Pumps o cid d d'
      → (d'.store ≡ d.store) × (d'.requests ≡ d.requests)
  unfolding start park
  Pumps-store cid d d' (inl (e, _)) = rw e (refl, refl)
  Pumps-store cid d d' (inr (inl (e, _))) = rw e (ground arith, ground arith)
  Pumps-store cid d d' (inr (inr (job, rest, e, _, _, _))) = rw e (refl, refl)

  pub push_store :
      (j : Job) (d : Dispatcher S)
      → ((push o j d).store ≡ d.store) × ((push o j d).requests ≡ d.requests)
  unfolding push
  push_store j d =
      Pumps-store j.conversation_id (queued store hmac o j d) _
        (pump-Pumps o j.conversation_id (queued store hmac o j d))

  push_all-Ordered :
      (js : List Job) (d : Dispatcher S)
      → Inv o d
      → Ord store laws hmac o d
      → d.requests ≡ []
      → Ascending js
      → All (λ j. j.id < laws.fresh d.store) js
      → Before d js
      → Ord store laws hmac o (push_all store o js d)
  unfolding push_all
  push_all-Ordered [] d i v quiet up low b = v
  push_all-Ordered (j ∷ js) d i v quiet up low b =
      let j' = record j { not_before = 0 } in
      let (same_store, same_trace) = push_store j' d in
      push_all-Ordered js (push o j' d) (push-Inv store hmac o j' d i)
        (push-Ordered store laws hmac o j' d i.core (b j'.conversation_id) (rw quiet tt) low.0 v)
        (same_trace ∙ quiet) (tail_up j js up) (rw same_store low.1) (next_Before j js d up b)
    where
      tail_up : (j : Job) (js : List Job) → Ascending (j ∷ js) → Ascending js
      tail_up j [] h = tt
      tail_up j (k ∷ js) h = h.1

      next_Before :
          (j : Job) (js : List Job) (d : Dispatcher S)
          → Ascending (j ∷ js)
          → Before d (j ∷ js)
          → Before (push o (record j { not_before = 0 }) d) js
      next_Before j [] d h b = tt
      next_Before j (k ∷ js) d h b = pushed-Before (record j { not_before = 0 }) k d h.0 b

  empty-Ordered : (s : S) → Ord store laws hmac o (empty s)
  unfolding empty queue_of
  empty-Ordered s = record {
    chain = tt;
    sorted = λ k. tt;
    below = λ k. tt;
    last_below = λ k. tt;
    tasks = λ k t found. cc;
    idle = λ k j rest off q. cc;
  }

  -- The pending jobs that a store hands to `resume` are in id order and below its next id.
  pub record IsReady (s : S) : Type 0 where
    pub ascending : Ascending (store.pending_jobs s)
    pub below : All (λ j. j.id < laws.fresh s) (store.pending_jobs s)

  first_Before : (s : S) (js : List Job) → Before (empty s) js
  unfolding empty queue_of
  first_Before s [] = tt
  first_Before s (j ∷ js) = λ cid. tt

  -- After `resume` on a store whose pending jobs are in id order, and then any calls and turns in
  -- any order, every request is the first attempt of a job of its conversation later than all
  -- jobs sent there before, or the next attempt of the job that the conversation sent last. Each
  -- carries its job's payload with that payload's signature, is within the limit of attempts, and
  -- a first attempt is not sent before the job's `notBefore`.
  pub run-InOrder :
      (s : S) (es : List (ℕ × Event))
      → IsReady s
      → InOrder hmac o (run store hmac o es (resume store o (empty s))).requests
  unfolding resume empty
  run-InOrder s es ready =
      let jobs = store.pending_jobs s in
      let d = push_all store o jobs (empty s) in
      let i = push_all-Inv store hmac o jobs (empty s) (empty-Inv store hmac o s) in
      let v =
        push_all-Ordered jobs (empty s) (empty-Inv store hmac o s) (empty-Ordered s) refl
          ready.ascending ready.below (first_Before s jobs) in
      (run_from-Ordered store laws hmac o es d i v).chain
