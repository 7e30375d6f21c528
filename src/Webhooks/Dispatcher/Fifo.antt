-- ===== src/Webhooks/Dispatcher/Fifo.antt =====
-- First in, first out in each conversation, over whole runs of webhooks/dispatcher.ts.
use comdove_fake_backend.Base.{
  ◌==◌, Bool-cases, All, All-append, Text, ℕ, suc, ◌<◌, ◌≡◌, refl, inl, inr, false, some, List, [],
  ◌∷◌, ◌++◌, arith,
}
use comdove_fake_backend.Webhooks.JobStore.{Job, Operations}
use comdove_fake_backend.Webhooks.Dispatcher.QueueMap.{queue_of, shift, queue_of-set_queue}
use comdove_fake_backend.Webhooks.Dispatcher.Types.{
  settled, Task, Options, Dispatcher, task_of, is_running,
}
use comdove_fake_backend.Webhooks.Dispatcher.Slots.{pump, push, settle}
use comdove_fake_backend.Webhooks.Dispatcher.Invariant.{Core, pump-Core}
use comdove_fake_backend.Webhooks.Dispatcher.Settling.{
  is_running-keep, task_of-keep, released, released-Core,
}
use comdove_fake_backend.Webhooks.Dispatcher.Runs.{queued, queued-Core}
use comdove_fake_backend.Webhooks.Dispatcher.Order.{
  latest, Clear, Laws, pump-Ordered, admit-Ordered,
}
use comdove_fake_backend.Webhooks.Dispatcher.Sequence.{
  Ascending-shift, Ascending-append, All-shift, Clear-mono, Ord,
}

module _ {S : Type 0} (store : Operations S) (laws : Laws store) (hmac : Text → Text → Text)
    (o : Options) where
  released-Ordered :
      (cid : ℕ) (t : Task) (rest : List Job) (d : Dispatcher S)
      → task_of cid d.running ≡ some t
      → t.phase ≡ settled
      → queue_of cid d.queues ≡ t.job ∷ rest
      → Ord store laws hmac o d
      → Ord store laws hmac o (released o cid d)
  released-Ordered cid t rest d found end q v =
      let q' = shift (queue_of cid d.queues) in
      record {
        chain = v.chain;
        sorted = λ k. rw (queue_of-set_queue cid k q' d.queues) (elim (Bool-cases (cid == k)) [
          | inl e ↦ rw e (Ascending-shift (queue_of cid d.queues) (v.sorted cid))
          | inr e ↦ rw e (v.sorted k)
        ]);
        below = λ k. rw (queue_of-set_queue cid k q' d.queues) (elim (Bool-cases (cid == k)) [
          | inl e ↦
              rw e
                (All-shift (λ j. j.id < laws.fresh d.store) (queue_of cid d.queues) (v.below cid))
          | inr e ↦ rw e (v.below k)
        ]);
        last_below = v.last_below;
        tasks = λ k u fu. v.tasks k u (ground (arith, task_of-keep k cid d.running));
        idle = λ k j r off qk. elim (Bool-cases (cid == k)) [
          | inl e ↦
              let here : k ≡ cid = ground arith in
              let next : rest ≡ j ∷ r = ground (arith, queue_of-set_queue cid k q' d.queues) in
              let up : t.job.id < j.id = (rw (q, next) at (v.sorted cid)).0 in
              let done : Clear (latest cid d.requests) (suc t.job.id) =
                rw end at (v.tasks cid t found) in
              rw here (Clear-mono (latest cid d.requests) up done)
          | inr e ↦
              let off' : is_running k d.running ≡ false =
                ground (arith, is_running-keep k cid d.running) in
              let qk' : queue_of k d.queues ≡ j ∷ r =
                ground (arith, queue_of-set_queue cid k q' d.queues) in
              v.idle k j r off' qk'
        ];
      }

  pub settle-Ordered :
      (cid : ℕ) (t : Task) (d : Dispatcher S)
      → Core o d
      → task_of cid d.running ≡ some t
      → t.phase ≡ settled
      → Ord store laws hmac o d
      → Ord store laws hmac o (settle o cid d)
  unfolding settle
  settle-Ordered cid t d c found end v =
      let (rest, q) = c.heads cid t found in
      let c₀ = released-Core o cid d c in
      let v₀ = released-Ordered cid t rest d found end q v in
      admit-Ordered store laws hmac o _ cid _ (pump o cid (released o cid d))
        (pump-Core o cid (released o cid d) c₀)
        (pump-Ordered store laws hmac o cid (released o cid d) c₀ v₀)

  -- A job above everything queued and sent goes to the end of its queue.
  queued-Ordered :
      (job : Job) (d : Dispatcher S)
      → Core o d
      → All (λ k. k.id < job.id) (queue_of job.conversation_id d.queues)
      → Clear (latest job.conversation_id d.requests) job.id
      → job.id < laws.fresh d.store
      → Ord store laws hmac o d
      → Ord store laws hmac o (queued store hmac o job d)
  queued-Ordered job d c top clear low v =
      let cid = job.conversation_id in
      let q = queue_of cid d.queues ++ job ∷ [] in
      record {
        chain = v.chain;
        sorted = λ k. rw (queue_of-set_queue cid k q d.queues) (elim (Bool-cases (cid == k)) [
          | inl e ↦ rw e (Ascending-append (queue_of cid d.queues) job (v.sorted cid) top)
          | inr e ↦ rw e (v.sorted k)
        ]);
        below = λ k. rw (queue_of-set_queue cid k q d.queues) (elim (Bool-cases (cid == k)) [
          | inl e ↦ rw e (
              All-append (λ j. j.id < laws.fresh d.store) (queue_of cid d.queues) (job ∷ [])
                (v.below cid) (low, tt))
          | inr e ↦ rw e (v.below k)
        ]);
        last_below = v.last_below;
        tasks = v.tasks;
        idle = λ k j r off qk. elim (Bool-cases (cid == k)) [
          | inl e ↦
              let here : k ≡ cid = ground arith in
              let whole : q ≡ j ∷ r = ground (arith, queue_of-set_queue cid k q d.queues) in
              rw here (
                first_Clear (queue_of cid d.queues) j r whole
                  (λ x xs ex. v.idle cid x xs (rw here at off) ex) clear)
          | inr e ↦
              let qk' : queue_of k d.queues ≡ j ∷ r =
                ground (arith, queue_of-set_queue cid k q d.queues) in
              v.idle k j r off qk'
        ];
      }
    where
      first_Clear :
          (q : List Job) (j : Job) (r : List Job)
          → q ++ job ∷ [] ≡ j ∷ r
          → ((x : Job) (xs : List Job)
              → q ≡ x ∷ xs
              → Clear (latest job.conversation_id d.requests) x.id)
          → Clear (latest job.conversation_id d.requests) job.id
          → Clear (latest job.conversation_id d.requests) j.id
      first_Clear [] j r e f g = let same : job ≡ j = ground arith in rw (← same) g
      first_Clear (x ∷ xs) j r e f g = let same : x ≡ j = ground arith in rw (← same) (f x xs refl)

  pub push-Ordered :
      (job : Job) (d : Dispatcher S)
      → Core o d
      → All (λ k. k.id < job.id) (queue_of job.conversation_id d.queues)
      → Clear (latest job.conversation_id d.requests) job.id
      → job.id < laws.fresh d.store
      → Ord store laws hmac o d
      → Ord store laws hmac o (push o job d)
  unfolding push
  push-Ordered job d c top clear low v =
      pump-Ordered store laws hmac o job.conversation_id (queued store hmac o job d)
        (queued-Core store hmac o job d c) (queued-Ordered job d c top clear low v)
