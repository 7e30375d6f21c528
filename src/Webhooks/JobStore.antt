-- ===== src/Webhooks/JobStore.antt =====
-- webhooks/job-store.ts: the port that the dispatcher writes through, and its two stores.
-- A store is a value of a type `S`; a method that changes it returns the new value. `add_attempt`
-- returns `none` where it throws: SQLite refuses an attempt whose job row is gone.
pub mod Agreement
use comdove_fake_backend.Base.{
  ℕ, suc, Text, text_eq, Bool, true, false, Option, none, some, List, [], ◌∷◌, ◌++◌, map, keep,
  find, any, ◌==◌, if◌then◌else◌,
}
use comdove_fake_backend.Contract.Events.{JobKind, JobState, pending}

pub record Job : Type 0 where
  pub id : ℕ
  pub conversation_id : ℕ
  pub wamid : Text
  pub kind : JobKind
  pub payload : Text
  pub not_before : ℕ
  pub state : JobState
  pub created_at : ℕ
  pub finished_at : Option ℕ

pub record NewJob : Type 0 where
  pub conversation_id : ℕ
  pub wamid : Text
  pub kind : JobKind
  pub payload : Text
  pub not_before : ℕ
  pub created_at : ℕ

pub record Attempt : Type 0 where
  pub job_id : ℕ
  pub attempt : ℕ
  pub http_status : Option ℕ
  pub error : Option Text
  pub duration_ms : ℕ
  pub at : ℕ

abbrev pub new_job : ℕ → NewJob → Job
new_job id j = record {
  id = id;
  conversation_id = j.conversation_id;
  wamid = j.wamid;
  kind = j.kind;
  payload = j.payload;
  not_before = j.not_before;
  state = pending;
  created_at = j.created_at;
  finished_at = none;
}

abbrev pub is_pending : JobState → Bool
is_pending pending = true
is_pending _ = false

-- The interface `JobStore`.
pub record Operations (S : Type 0) : Type 0 where
  pub insert : NewJob → S → Job × S
  pub get : ℕ → S → Option Job
  pub add_attempt : Attempt → S → Option S
  pub finish : ℕ → JobState → ℕ → S → S
  pub pending_jobs : S → List Job
  pub attempts_of : ℕ → S → List Attempt
  pub jobs_for : Text → S → List Job
  pub clear : S → S

-- The class `MemoryJobStore`.
pub record Memory : Type 0 where
  pub jobs : List Job
  pub attempt_rows : List Attempt
  pub next_id : ℕ

abbrev pub finish_job : ℕ → JobState → ℕ → Job → Job
finish_job id state at j =
    if j.id == id then record j { state = state; finished_at = some at } else j

unfoldable pub memory_store : Operations Memory
memory_store = record {
  insert = λ j s. (
    new_job s.next_id j,
    record s { jobs = s.jobs ++ new_job s.next_id j ∷ []; next_id = suc s.next_id },
  );
  get = λ id s. find (λ j. j.id == id) s.jobs;
  add_attempt = λ a s. some (record s { attempt_rows = s.attempt_rows ++ a ∷ [] });
  finish = λ id state at s. record s { jobs = map (finish_job id state at) s.jobs };
  pending_jobs = λ s. keep (λ j. is_pending j.state) s.jobs;
  attempts_of = λ id s. keep (λ a. a.job_id == id) s.attempt_rows;
  jobs_for = λ wamid s. keep (λ j. text_eq j.wamid wamid) s.jobs;
  clear = λ s. record s { jobs = []; attempt_rows = [] };
}

-- A row of webhook_jobs: `not_before` is no column.
pub record JobRow : Type 0 where
  pub id : ℕ
  pub conversation_id : ℕ
  pub wamid : Text
  pub kind : JobKind
  pub payload : Text
  pub state : JobState
  pub created_at : ℕ
  pub finished_at : Option ℕ

-- The two tables of `SqliteJobStore`, rows in id order, with the AUTOINCREMENT counter.
pub record Tables : Type 0 where
  pub webhook_jobs : List JobRow
  pub webhook_attempts : List Attempt
  pub next_id : ℕ

abbrev pub to_job : JobRow → Job
to_job r = record {
  id = r.id;
  conversation_id = r.conversation_id;
  wamid = r.wamid;
  kind = r.kind;
  payload = r.payload;
  not_before = 0;
  state = r.state;
  created_at = r.created_at;
  finished_at = r.finished_at;
}

abbrev pub to_row : Job → JobRow
to_row j = record {
  id = j.id;
  conversation_id = j.conversation_id;
  wamid = j.wamid;
  kind = j.kind;
  payload = j.payload;
  state = j.state;
  created_at = j.created_at;
  finished_at = j.finished_at;
}

abbrev pub finish_row : ℕ → JobState → ℕ → JobRow → JobRow
finish_row id state at r =
    if r.id == id then record r { state = state; finished_at = some at } else r

abbrev pub found_job : Option JobRow → Option Job
found_job none = none
found_job (some r) = some (to_job r)

unfoldable pub sqlite_store : Operations Tables
sqlite_store = record {
  insert = λ j s. (
    new_job s.next_id j,
    record s {
      webhook_jobs = s.webhook_jobs ++ to_row (new_job s.next_id j) ∷ [];
      next_id = suc s.next_id;
    },
  );
  get = λ id s. found_job (find (λ r. r.id == id) s.webhook_jobs);
  add_attempt = λ a s.
      if any (λ r. r.id == a.job_id) s.webhook_jobs
      then some (record s { webhook_attempts = s.webhook_attempts ++ a ∷ [] })
      else none;
  finish = λ id state at s. record s { webhook_jobs = map (finish_row id state at) s.webhook_jobs };
  pending_jobs = λ s. map to_job (keep (λ r. is_pending r.state) s.webhook_jobs);
  attempts_of = λ id s. keep (λ a. a.job_id == id) s.webhook_attempts;
  jobs_for = λ wamid s. map to_job (keep (λ r. text_eq r.wamid wamid) s.webhook_jobs);
  clear = λ s. record s { webhook_jobs = []; webhook_attempts = [] };
}
