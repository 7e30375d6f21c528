-- ===== src/Webhooks/JobStore/Agreement.antt =====
-- `MemoryJobStore` beside `SqliteJobStore` of webhooks/job-store.ts. SQLite keeps no `not_before`,
-- and its foreign key refuses an attempt of a job that is not there.
use comdove_fake_backend.Base.{
  Bool-cases, inl, inr, false, ◌==◌, is_some, keep, find, any, Text, text_eq, ℕ, suc, ◌≡◌, refl, ap,
  ap₂, ◌∙◌, Bool, true, Option, none, some, List, [], ◌∷◌, ◌++◌, map, arith,
}
use comdove_fake_backend.Contract.Events.{JobState}
use comdove_fake_backend.Webhooks.JobStore.{
  Job, NewJob, Attempt, new_job, is_pending, Memory, finish_job, memory_store, JobRow, Tables,
  to_job, to_row, finish_row, found_job, sqlite_store,
}

-- The same jobs and attempts, as objects and as rows.
pub record Agrees (m : Memory) (t : Tables) : Type 0 where
  pub rows : map to_row m.jobs ≡ t.webhook_jobs
  pub attempts : m.attempt_rows ≡ t.webhook_attempts
  pub ids : m.next_id ≡ t.next_id

-- What a job is when it has been through SQLite.
abbrev pub forget : Job → Job
forget j = to_job (to_row j)

abbrev pub forget_option : Option Job → Option Job
forget_option none = none
forget_option (some j) = some (forget j)

map-append : (f : Job → JobRow) (xs ys : List Job) → map f (xs ++ ys) ≡ map f xs ++ map f ys
map-append f [] ys = refl
map-append f (x ∷ xs) ys = ap (λ (l : List JobRow). f x ∷ l) (map-append f xs ys)

find_agrees :
    (id : ℕ) (js : List Job)
    → found_job (find (λ r. r.id == id) (map to_row js)) ≡ forget_option (find (λ j. j.id == id) js)
find_agrees id [] = refl
find_agrees id (j ∷ js) = ground (arith, find_agrees id js)

any_agrees :
    (id : ℕ) (js : List Job)
    → any (λ r. r.id == id) (map to_row js) ≡ is_some (find (λ j. j.id == id) js)
any_agrees id [] = refl
any_agrees id (j ∷ js) = ground (arith, any_agrees id js)

keep_agrees :
    (p : JobRow → Bool) (js : List Job)
    → map to_job (keep p (map to_row js)) ≡ map forget (keep (λ j. p (to_row j)) js)
keep_agrees p [] = refl
keep_agrees p (j ∷ js) = ground (arith, keep_agrees p js)

finish_agrees :
    (id : ℕ) (state : JobState) (at : ℕ) (js : List Job)
    → map to_row (map (finish_job id state at) js) ≡ map (finish_row id state at) (map to_row js)
finish_agrees id state at [] = refl
finish_agrees id state at (j ∷ js) = ground (arith, finish_agrees id state at js)

module _ (m : Memory) (t : Tables) (a : Agrees m t) where
  insert-Agrees :
      (j : NewJob)
      → ((memory_store.insert j m).0 ≡ (sqlite_store.insert j t).0)
        × Agrees (memory_store.insert j m).1 (sqlite_store.insert j t).1
  unfolding memory_store sqlite_store
  insert-Agrees j = (
    ap (λ (n : ℕ). new_job n j) a.ids,
    record {
      rows =
          map-append to_row m.jobs (new_job m.next_id j ∷ [])
          ∙ ap₂ (λ (l : List JobRow) (n : ℕ). l ++ to_row (new_job n j) ∷ []) a.rows a.ids;
      attempts = a.attempts;
      ids = ap suc a.ids;
    },
  )

  finish-Agrees :
      (id : ℕ) (state : JobState) (at : ℕ)
      → Agrees (memory_store.finish id state at m) (sqlite_store.finish id state at t)
  unfolding memory_store sqlite_store
  finish-Agrees id state at = record {
    rows = finish_agrees id state at m.jobs ∙ ap (map (finish_row id state at)) a.rows;
    attempts = a.attempts;
    ids = a.ids;
  }

  -- For a known job both take the attempt; for another the first does and the second throws.
  abbrev pub Added : (known : Bool) → Option Memory → Option Tables → Type 0
  Added true (some m') (some t') = Agrees m' t'
  Added false (some m') none = Unit
  Added _ _ _ = ⊥

  add_attempt-Added :
      (at : Attempt)
      → Added
          (is_some (memory_store.get at.job_id m))
          (memory_store.add_attempt at m)
          (sqlite_store.add_attempt at t)
  unfolding memory_store sqlite_store
  add_attempt-Added at =
      let same : any (λ r. r.id == at.job_id) t.webhook_jobs
          ≡ is_some (find (λ j. j.id == at.job_id) m.jobs) =
        rw (← a.rows) (any_agrees at.job_id m.jobs) in
      elim (Bool-cases (is_some (find (λ j. j.id == at.job_id) m.jobs))) [
        | inl known ↦
            rw (same, known)
              (record {
                rows = a.rows;
                attempts = ap (λ (l : List Attempt). l ++ at ∷ []) a.attempts;
                ids = a.ids;
              })
        | inr unknown ↦ rw (same, unknown) tt
      ]

  reads_agree :
      (id : ℕ) (wamid : Text)
      → (sqlite_store.get id t ≡ forget_option (memory_store.get id m))
        × (sqlite_store.pending_jobs t ≡ map forget (memory_store.pending_jobs m))
        × (sqlite_store.attempts_of id t ≡ memory_store.attempts_of id m)
        × (sqlite_store.jobs_for wamid t ≡ map forget (memory_store.jobs_for wamid m))
  unfolding memory_store sqlite_store
  reads_agree id wamid = (
    rw (← a.rows) (find_agrees id m.jobs),
    rw (← a.rows) (keep_agrees (λ r. is_pending r.state) m.jobs),
    rw (← a.attempts) refl,
    rw (← a.rows) (keep_agrees (λ r. text_eq r.wamid wamid) m.jobs),
  )

  -- Two stores that agree still agree after the same `insert`, `finish`, `clear`, and `addAttempt`
  -- for a known job; for an unknown job the in-memory store takes the attempt and SQLite throws.
  -- `insert` returns the same job from both, and every read returns the same attempts and, but for
  -- `not_before`, the same jobs.
  pub stores_agree :
      (j : NewJob) (state : JobState) (id now : ℕ) (wamid : Text) (at : Attempt)
      → ((memory_store.insert j m).0 ≡ (sqlite_store.insert j t).0)
        × Agrees (memory_store.insert j m).1 (sqlite_store.insert j t).1
        × Agrees (memory_store.finish id state now m) (sqlite_store.finish id state now t)
        × Agrees (memory_store.clear m) (sqlite_store.clear t)
        × Added
            (is_some (memory_store.get at.job_id m))
            (memory_store.add_attempt at m)
            (sqlite_store.add_attempt at t)
        × (sqlite_store.get id t ≡ forget_option (memory_store.get id m))
        × (sqlite_store.pending_jobs t ≡ map forget (memory_store.pending_jobs m))
        × (sqlite_store.attempts_of id t ≡ memory_store.attempts_of id m)
        × (sqlite_store.jobs_for wamid t ≡ map forget (memory_store.jobs_for wamid m))
  unfolding memory_store sqlite_store
  stores_agree j state id now wamid at =
      let (same, inserted) = insert-Agrees j in
      let (got, waiting, tries, found) = reads_agree id wamid in
      (
        same,
        inserted,
        finish-Agrees id state now,
        record { rows = refl; attempts = refl; ids = a.ids },
        add_attempt-Added at,
        got,
        waiting,
        tries,
        found,
      )
