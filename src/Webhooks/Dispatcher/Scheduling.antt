-- ===== src/Webhooks/Dispatcher/Scheduling.antt =====
-- The scheduling of webhooks/dispatcher.ts over whole runs.
use comdove_fake_backend.Webhooks.Dispatcher.Settling.{settle-Inv}
use comdove_fake_backend.Webhooks.Dispatcher.Turns.{
  attempt_row, max_attempts, changed, record_attempt, fetch, record_result, conclude,
  conclude_result, turn, wake,
}
use comdove_fake_backend.Base.{
  ltb, true, Option, Bool, Option-cases, ◌==◌, Bool-cases, length, Text, ℕ, ◌≡◌, refl, inl, inr,
  some, List, [], ◌∷◌, arith, leb, false, none,
}
use comdove_fake_backend.Webhooks.JobStore.{Job, Operations}
use comdove_fake_backend.Webhooks.Dispatcher.Types.{
  Wake, Phase, Task, Options, Dispatcher, cid_of, task_of, is_running, set_phase, starting,
  fetching, reading, judged, backing_off, settled, timer, response, failure, body_read, resumed,
}
use comdove_fake_backend.Webhooks.Dispatcher.Invariant.{task_of-cases, Distinct, Inv}

pub is_running-set_phase :
    (k cid : ℕ) (p : Phase) (ts : List Task) → is_running k (set_phase cid p ts) ≡ is_running k ts
unfolding set_phase
is_running-set_phase k cid p [] = refl
is_running-set_phase k cid p (t ∷ ts) = ground (arith, is_running-set_phase k cid p ts)

pub length-set_phase :
    (cid : ℕ) (p : Phase) (ts : List Task) → length (set_phase cid p ts) ≡ length ts
unfolding set_phase
length-set_phase cid p [] = refl
length-set_phase cid p (t ∷ ts) = ground (arith, length-set_phase cid p ts)

Distinct-set_phase :
    (cid : ℕ) (p : Phase) (ts : List Task) → Distinct ts → Distinct (set_phase cid p ts)
unfolding set_phase
Distinct-set_phase cid p [] h = tt
Distinct-set_phase cid p (t ∷ ts) h = elim (Bool-cases (cid_of t == cid)) [
  | inl e ↦ rw e h
  | inr e ↦
      rw e (rw (is_running-set_phase (cid_of t) cid p ts) h.0, Distinct-set_phase cid p ts h.1)
]

-- The job of a task stays the one that it was started with.
pub task_of-set_phase :
    (k cid : ℕ) (p : Phase) (ts : List Task) (t : Task)
    → task_of k (set_phase cid p ts) ≡ some t
    → (u : Task) × (task_of k ts ≡ some u) × (u.job ≡ t.job)
unfolding set_phase
task_of-set_phase k cid p [] t h = cc
task_of-set_phase k cid p (u ∷ ts) t h = elim (Bool-cases (cid_of u == cid)) [
  | inl e ↦ elim (Bool-cases (cid_of u == k)) [
    | inl f ↦ (u, ground arith, ground arith)
    | inr f ↦ (t, ground arith, refl)
  ]
  | inr e ↦ elim (Bool-cases (cid_of u == k)) [
    | inl f ↦ (u, ground arith, ground arith)
    | inr f ↦
        let (v, fv, same) = task_of-set_phase k cid p ts t (ground arith) in (v, ground arith, same)
  ]
]

module _ {S : Type 0} (store : Operations S) (hmac : Text → Text → Text) (o : Options) where
  -- The invariant reads the queues, the tasks' jobs and the line, and nothing else.
  rephased-Inv :
      (cid : ℕ) (p : Phase) (d d' : Dispatcher S)
      → d'.queues ≡ d.queues
      → d'.waiting ≡ d.waiting
      → d'.running ≡ set_phase cid p d.running
      → Inv o d
      → Inv o d'
  rephased-Inv cid p d d' eq ew er v = record {
    core = record {
      bounded = rw (er, length-set_phase cid p d.running) v.core.bounded;
      distinct = rw er (Distinct-set_phase cid p d.running v.core.distinct);
      owned = λ k. rw eq (v.core.owned k);
      heads = λ k t found.
          let (u, fu, same) = task_of-set_phase k cid p d.running t (rw er at found) in
          rw (eq, ← same) (v.core.heads k u fu);
    };
    covered = λ k. rw (eq, er, ew, is_running-set_phase k cid p d.running) (v.covered k);
    full = rw (ew, er, length-set_phase cid p d.running) v.full;
  }

  -- What the store and the log of changes are told leaves the scheduling alone.
  pub record Same (d d' : Dispatcher S) : Type 0 where
    pub queues : d'.queues ≡ d.queues
    pub waiting : d'.waiting ≡ d.waiting
    pub running : d'.running ≡ d.running
    pub requests : d'.requests ≡ d.requests

  pub Same-refl : (d : Dispatcher S) → Same d d
  Same-refl d = record { queues = refl; waiting = refl; running = refl; requests = refl }

  changed-Same : (id : ℕ) (d : Dispatcher S) → Same d (changed store hmac o id d)
  unfolding changed
  changed-Same id d = elim (Option-cases (store.get id d.store)) [
    | inl e ↦ rw (e, changed) (Same-refl d)
    | inr (job, e) ↦
        rw (e, changed) (record { queues = refl; waiting = refl; running = refl; requests = refl })
  ]

  stored-Same :
      (id : ℕ) (s : S) (d : Dispatcher S)
      → Same d (changed store hmac o id (record d { store = s }))
  stored-Same id s d =
      let c = changed-Same id (record d { store = s }) in
      record { queues = c.queues; waiting = c.waiting; running = c.running; requests = c.requests }

  pub record_attempt-Same :
      (job : Job) (n started : ℕ) (status : Option ℕ) (error : Option Text) (now : ℕ)
      (d : Dispatcher S)
      → Same d (record_attempt store hmac o job n started status error now d).1
  unfolding record_attempt
  record_attempt-Same job n started status error now d =
      elim (Option-cases (store.add_attempt (attempt_row job n started status error now) d.store)) [
        | inl e ↦ rw (e, record_attempt) (Same-refl d)
        | inr (s, e) ↦ rw (e, record_attempt) (stored-Same job.id s d)
      ]

  pub conclude-Same :
      (job : Job) (n : ℕ) (passed : Bool) (now : ℕ) (d : Dispatcher S)
      → Same d (conclude store hmac o job n passed now d).1
  unfolding conclude
  conclude-Same job n true now d = stored-Same job.id _ d
  conclude-Same job n false now d = elim (Bool-cases (ltb n (max_attempts o))) [
    | inl e ↦ rw e (Same-refl d)
    | inr e ↦ rw e (stored-Same job.id _ d)
  ]

  Same-Inv :
      (cid : ℕ) (p : Phase) (d d' : Dispatcher S)
      → Same d d'
      → Inv o d
      → Inv o (record d' { running = set_phase cid p d'.running })
  Same-Inv cid p d d' s v = rephased-Inv cid p d _ s.queues s.waiting (rw s.running refl) v

  -- Every turn of a running task keeps the invariant.
  turn-Inv :
      (cid : ℕ) (job : Job) (p : Phase) (w : Wake) (now : ℕ) (d : Dispatcher S)
      → Inv o d
      → is_running cid d.running ≡ true
      → Inv o (turn store hmac o cid job p w now d)
  unfolding turn fetch record_result conclude_result
  turn-Inv cid job (starting until) timer now d v on = elim (Bool-cases (leb until now)) [
    | inl e ↦ rw e (rephased-Inv cid _ d _ refl refl refl v)
    | inr e ↦ rw e v
  ]
  turn-Inv cid job (backing_off n until) timer now d v on = elim (Bool-cases (leb until now)) [
    | inl e ↦ rw e (rephased-Inv cid _ d _ refl refl refl v)
    | inr e ↦ rw e v
  ]
  turn-Inv cid job (fetching n started) (response status) now d v on =
      rephased-Inv cid _ d _ refl refl refl v
  turn-Inv cid job (fetching n started) (failure error) now d v on =
      Same-Inv cid _ d _ (record_attempt-Same job n started none (some error) now d) v
  turn-Inv cid job (reading n started status) body_read now d v on =
      Same-Inv cid _ d _ (record_attempt-Same job n started (some status) none now d) v
  turn-Inv cid job (judged n passed) resumed now d v on =
      Same-Inv cid _ d _ (conclude-Same job n passed now d) v
  turn-Inv cid job settled resumed now d v on = settle-Inv o cid d v on
  turn-Inv cid job _ _ now d v on = v

  pub wake-Inv :
      (cid : ℕ) (w : Wake) (now : ℕ) (d : Dispatcher S)
      → Inv o d
      → Inv o (wake store hmac o cid w now d)
  unfolding wake
  wake-Inv cid w now d v = elim (task_of-cases cid d.running) [
    | inl (off, e) ↦ rw (e, wake) v
    | inr (t, on, e, same) ↦ rw (e, wake) (turn-Inv cid t.job t.phase w now d v on)
  ]
