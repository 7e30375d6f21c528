-- ===== src/Webhooks/Dispatcher/Order.antt =====
-- The order of the requests that webhooks/dispatcher.ts sends in one conversation.
use comdove_fake_backend.Contract.Events.{JobState}
use comdove_fake_backend.Webhooks.Dispatcher.Settling.{dropped-Core}
use comdove_fake_backend.Base.{
  ltb, ◌==◌, Bool-cases, length, find, All, Text, ℕ, zero, suc, ◌+◌, ◌≤◌, ◌<◌, ◌≡◌, refl, ◌⊎◌, inl,
  inr, false, Option, none, some, List, [], ◌∷◌, arith,
}
use comdove_fake_backend.Webhooks.JobStore.{Job, NewJob, Attempt, new_job, Operations}
use comdove_fake_backend.Webhooks.Dispatcher.QueueMap.{queue_of, has}
use comdove_fake_backend.Webhooks.Dispatcher.Types.{
  Phase, starting, fetching, reading, judged, backing_off, settled, Task, Request, Options,
  Dispatcher, task_of, is_running,
}
use comdove_fake_backend.Webhooks.Dispatcher.Slots.{max_running, start, park, pump, admit}
use comdove_fake_backend.Webhooks.Dispatcher.Turns.{max_attempts, sign}
use comdove_fake_backend.Webhooks.Dispatcher.Invariant.{
  task_of-append_found, task_of-append, Core, task_of-cases, is_running-append, pump-Pumps,
  pump-Core,
}

-- The last request of a conversation, in a trace that has the newest first.
abbrev pub latest : ℕ → List Request → Option Request
latest cid rs = find (λ r. r.job.conversation_id == cid) rs

-- What may come after the last request of the conversation: the next attempt of the same job, or
-- the first attempt of a later one.
abbrev pub Follows : Option Request → Request → Type 0
Follows none r = r.attempt ≡ 1
Follows (some q) r =
    ((r.job ≡ q.job) × (r.attempt ≡ q.attempt + 1)) ⊎ ((q.job.id < r.job.id) × (r.attempt ≡ 1))

-- What each request says of itself: the bytes and the signature are those of its job, the attempt
-- is within the limit, and a first attempt respects `notBefore`.
pub record Honest (hmac : Text → Text → Text) (o : Options) (r : Request) : Type 0 where
  pub body : r.body ≡ r.job.payload
  pub signed : r.signature ≡ sign hmac r.job.payload o.secret
  pub within : r.attempt ≤ max_attempts o
  pub due : r.attempt ≡ 1 → r.job.not_before ≤ r.at

abbrev pub InOrder : (hmac : Text → Text → Text) (o : Options) → List Request → Type 0
InOrder hmac o [] = Unit
InOrder hmac o (r ∷ rs) =
    Follows (latest r.job.conversation_id rs) r × Honest hmac o r × InOrder hmac o rs

abbrev pub Ascending : List Job → Type 0
Ascending [] = Unit
Ascending (j ∷ []) = Unit
Ascending (j ∷ k ∷ q) = (j.id < k.id) × Ascending (k ∷ q)

-- The conversation's last request belongs to a job before this id.
abbrev pub Clear : Option Request → ℕ → Type 0
Clear none id = Unit
Clear (some q) id = q.job.id < id

abbrev pub Sent : Option Request → Job → ℕ → Options → Type 0
Sent none job n o = ⊥
Sent (some q) job n o = (q.job ≡ job) × (q.attempt ≡ n) × (1 ≤ n) × (n ≤ max_attempts o)

-- Where a running task stands in the trace.
abbrev pub Matches : Options → Option Request → Job → Phase → Type 0
Matches o last job (starting until) = Clear last job.id × (until ≡ job.not_before)
Matches o last job (fetching n started) = Sent last job n o
Matches o last job (reading n started status) = Sent last job n o
Matches o last job (judged n passed) = Sent last job n o
Matches o last job (backing_off n until) = Sent last job n o × (n < max_attempts o)
Matches o last job settled = Clear last (suc job.id)

-- What the order relies on of a store: an insert takes an id above all earlier ones and keeps the
-- job as it was given.
pub record Laws {S : Type 0} (store : Operations S) : Type 0 where
  pub fresh : S → ℕ
  pub insert_job : (j : NewJob) (s : S) → (store.insert j s).0 ≡ new_job (fresh s) j
  pub insert_fresh : (j : NewJob) (s : S) → fresh (store.insert j s).1 ≡ suc (fresh s)
  pub add_attempt_fresh :
      (a : Attempt) (s s' : S) → store.add_attempt a s ≡ some s' → fresh s' ≡ fresh s
  pub finish_fresh :
      (id : ℕ) (state : JobState) (at : ℕ) (s : S) → fresh (store.finish id state at s) ≡ fresh s

module _ {S : Type 0} (store : Operations S) (laws : Laws store) (hmac : Text → Text → Text)
    (o : Options) where
  pub record Ordered (d : Dispatcher S) : Type 0 where
    pub chain : InOrder hmac o d.requests
    pub sorted : (cid : ℕ) → Ascending (queue_of cid d.queues)
    pub below : (cid : ℕ) → All (λ j. j.id < laws.fresh d.store) (queue_of cid d.queues)
    pub last_below : (cid : ℕ) → Clear (latest cid d.requests) (laws.fresh d.store)
    pub tasks :
        (cid : ℕ) (t : Task)
        → task_of cid d.running ≡ some t
        → Matches o (latest cid d.requests) t.job t.phase
    pub idle :
        (cid : ℕ) (j : Job) (rest : List Job)
        → is_running cid d.running ≡ false
        → queue_of cid d.queues ≡ j ∷ rest
        → Clear (latest cid d.requests) j.id

  -- The order reads the trace, the queues, the tasks and the next id.
  pub moved-Ordered :
      (d d' : Dispatcher S)
      → d'.queues ≡ d.queues
      → d'.running ≡ d.running
      → d'.requests ≡ d.requests
      → laws.fresh d'.store ≡ laws.fresh d.store
      → Ordered d
      → Ordered d'
  moved-Ordered d d' eq er et ef v = record {
    chain = rw et v.chain;
    sorted = λ k. rw eq (v.sorted k);
    below = λ k. rw (eq, ef) (v.below k);
    last_below = λ k. rw (et, ef) (v.last_below k);
    tasks = λ k t found. rw et (v.tasks k t (rw er at found));
    idle = λ k j rest off q. rw et (v.idle k j rest (rw er at off) (rw eq at q));
  }

  start-Ordered :
      (cid : ℕ) (job : Job) (rest : List Job) (d : Dispatcher S)
      → job.conversation_id ≡ cid
      → queue_of cid d.queues ≡ job ∷ rest
      → is_running cid d.running ≡ false
      → Ordered d
      → Ordered (start cid job d)
  unfolding start
  start-Ordered cid job rest d own q off v =
      let u : Task = record { job = job; phase = starting job.not_before } in
      record {
        chain = v.chain;
        sorted = v.sorted;
        below = v.below;
        last_below = v.last_below;
        tasks = λ k t found. elim (task_of-cases k d.running) [
          | inl (none_k, _) ↦
              let got : task_of k (u ∷ []) ≡ some t =
                rw (← task_of-append k d.running (u ∷ []) none_k) found in
              let same : u ≡ t = ground arith in
              let here : k ≡ cid = ground arith in
              rw (← same, here) (v.idle cid job rest off q, refl)
          | inr (w, on, fw, _) ↦
              let got : some w ≡ some t =
                rw (← task_of-append_found k d.running (u ∷ []) w fw) found in
              let same : w ≡ t = ground arith in v.tasks k t (rw (← same) fw)
        ];
        idle = λ k j r none_k qk.
            v.idle k j r (ground (arith, is_running-append k d.running (u ∷ []))) qk;
      }

  pub pump-Ordered : (cid : ℕ) (d : Dispatcher S) → Core o d → Ordered d → Ordered (pump o cid d)
  unfolding park
  pump-Ordered cid d c v = elim (pump-Pumps o cid d) [
    | inl (e, _) ↦ rw e v
    | inr (inl (e, _)) ↦ rw e (elim (Bool-cases (has cid d.waiting)) [
      | inl h ↦ rw h v
      | inr h ↦ rw h (moved-Ordered d _ refl refl refl refl v)
    ])
    | inr (inr (job, rest, e, q, off, free)) ↦
        rw e (start-Ordered cid job rest d (rw q at (c.owned cid)).0 q off v)
  ]

  pub admit-Ordered :
      (fuel cid : ℕ) (ws : List ℕ) (d : Dispatcher S)
      → Core o d
      → Ordered d
      → Ordered (admit o fuel cid ws d)
  unfolding admit
  admit-Ordered zero cid ws d c v = v
  admit-Ordered (suc fuel) cid [] d c v = v
  admit-Ordered (suc fuel) cid (next ∷ ws) d c v =
      let d₁ = record d { waiting = ws } in
      let c₁ = dropped-Core o ws d c in
      let v₁ = moved-Ordered d d₁ refl refl refl refl v in
      elim (Bool-cases (ltb (length d.running) (max_running o))) [
        | inr e ↦ rw e v
        | inl e ↦ rw e (elim (Bool-cases (next == cid)) [
          | inl same ↦ rw same (admit-Ordered fuel cid ws d₁ c₁ v₁)
          | inr other ↦ rw other (
              admit-Ordered fuel cid _ (pump o next d₁) (pump-Core o next d₁ c₁)
                (pump-Ordered next d₁ c₁ v₁))
        ])
      ]
