-- ===== src/Webhooks/Dispatcher/Stores.antt =====
-- Both stores of webhooks/job-store.ts meet what the order of requests relies on.
use comdove_fake_backend.Base.{◌≡◌, refl, some, arith}
use comdove_fake_backend.Webhooks.JobStore.{Attempt, Memory, memory_store, Tables, sqlite_store}
use comdove_fake_backend.Webhooks.Dispatcher.Order.{Laws}

pub sqlite_attempt_fresh :
    (a : Attempt) (s s' : Tables) → sqlite_store.add_attempt a s ≡ some s' → s'.next_id ≡ s.next_id
unfolding sqlite_store
sqlite_attempt_fresh a s s' h = ground arith

pub memory_attempt_fresh :
    (a : Attempt) (s s' : Memory) → memory_store.add_attempt a s ≡ some s' → s'.next_id ≡ s.next_id
unfolding memory_store
memory_attempt_fresh a s s' h = ground arith

abbrev pub sqlite_laws : Laws sqlite_store
unfolding sqlite_store
sqlite_laws = record {
  fresh = λ s. s.next_id;
  insert_job = λ j s. refl;
  insert_fresh = λ j s. refl;
  add_attempt_fresh = sqlite_attempt_fresh;
  finish_fresh = λ id state at s. refl;
}

abbrev pub memory_laws : Laws memory_store
unfolding memory_store
memory_laws = record {
  fresh = λ s. s.next_id;
  insert_job = λ j s. refl;
  insert_fresh = λ j s. refl;
  add_attempt_fresh = memory_attempt_fresh;
  finish_fresh = λ id state at s. refl;
}
