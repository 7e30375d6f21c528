-- ===== src/Webhooks/Dispatcher/Types.antt =====
-- The state of webhooks/dispatcher.ts and what happens to it.
use comdove_fake_backend.Base.{
  ℕ, zero, suc, Text, Bool, false, Option, none, some, List, [], ◌∷◌, find, any, ◌==◌,
  if◌then◌else◌,
}
use comdove_fake_backend.Contract.Events.{JobKind}
use comdove_fake_backend.Webhooks.JobStore.{Job}
use comdove_fake_backend.Webhooks.Dispatcher.QueueMap.{Queues}

pub data Phase : Type 0 where
  starting : (until : ℕ) → Phase
  fetching : (n started : ℕ) → Phase
  reading : (n started status : ℕ) → Phase
  judged : (n : ℕ) (passed : Bool) → Phase
  backing_off : (n until : ℕ) → Phase
  settled : Phase

pub record Task : Type 0 where
  pub job : Job
  pub phase : Phase

-- A call of `fetch`.
pub record Request : Type 0 where
  pub job : Job
  pub attempt : ℕ
  pub at : ℕ
  pub body : Text
  pub signature : Text

pub record Options : Type 0 where
  pub secret : Text
  pub retry_delays : List ℕ
  pub max_parallel : ℕ

pub record Dispatcher (S : Type 0) : Type 0 where
  pub store : S
  pub queues : Queues
  pub running : List Task
  pub waiting : List ℕ
  pub orphans : List Task
  pub requests : List Request  -- every `fetch` so far, newest first
  pub changes : List Text  -- the wamid of every `onChange` so far, newest first

pub record EnqueueInput : Type 0 where
  pub conversation_id : ℕ
  pub wamid : Text
  pub kind : JobKind
  pub body : Text  -- `JSON.stringify(j.body)`
  pub not_before : Option ℕ

abbrev pub default_retry_delays_ms : List ℕ
default_retry_delays_ms = 1000 ∷ 5000 ∷ 15000 ∷ []

abbrev pub cid_of : Task → ℕ
cid_of t = t.job.conversation_id

abbrev pub task_of : ℕ → List Task → Option Task
task_of cid ts = find (λ t. cid_of t == cid) ts

abbrev pub is_running : ℕ → List Task → Bool
is_running cid ts = any (λ t. cid_of t == cid) ts

-- The task of this conversation moves to another phase.
unfoldable pub set_phase : ℕ → Phase → List Task → List Task
set_phase cid p [] = []
set_phase cid p (t ∷ ts) =
    if cid_of t == cid then record t { phase = p } ∷ ts else t ∷ set_phase cid p ts

-- `retryDelays[n - 1]`, asked for only where it is there.
unfoldable pub delay_at : ℕ → List ℕ → ℕ
delay_at n [] = 0
delay_at zero (d ∷ ds) = d
delay_at (suc zero) (d ∷ ds) = d
delay_at (suc (suc n)) (d ∷ ds) = delay_at (suc n) ds

abbrev pub is_200 : Option ℕ → Bool
is_200 none = false
is_200 (some status) = status == 200

-- What the environment does to a task of a conversation.
pub data Wake : Type 0 where
  timer : Wake  -- its `sleep` is over
  response : (status : ℕ) → Wake  -- its `fetch` resolves
  failure : (error : Text) → Wake  -- its `fetch` rejects, not by the signal
  body_read : Wake  -- the response's body is read, or fails to be
  resumed : Wake  -- the microtask after `attempt` or after `runHead` runs

pub data Event : Type 0 where
  enqueues : EnqueueInput → Event
  cancels : Event
  wakes : (cid : ℕ) → Wake → Event
  wakes_orphan : (index : ℕ) → Wake → Event

-- `sleep` rejects at once where the signal is aborted.
abbrev pub aborted_phase : Phase → Phase
aborted_phase (backing_off n until) = settled
aborted_phase p = p
