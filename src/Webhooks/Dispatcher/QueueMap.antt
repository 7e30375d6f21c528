-- ===== src/Webhooks/Dispatcher/QueueMap.antt =====
-- The `Map<number, Job[]>` of webhooks/dispatcher.ts, and sets of numbers as lists.
use comdove_fake_backend.Base.{
  ℕ, ◌≡◌, refl, Bool, false, not, List, [], ◌∷◌, ◌++◌, keep, ◌||◌, ◌==◌, if◌then◌else◌, arith,
}
use comdove_fake_backend.Webhooks.JobStore.{Job}

abbrev pub Queues : Type 0
Queues = List (ℕ × List Job)

-- `queues.get(cid)`, an absent queue as an empty one: the program treats both alike.
unfoldable pub queue_of : ℕ → Queues → List Job
queue_of cid [] = []
queue_of cid ((k, q) ∷ m) = if k == cid then q else queue_of cid m

unfoldable pub set_queue : ℕ → List Job → Queues → Queues
set_queue cid q [] = (cid, q) ∷ []
set_queue cid q ((k, r) ∷ m) = if k == cid then (cid, q) ∷ m else (k, r) ∷ set_queue cid q m

unfoldable pub has : ℕ → List ℕ → Bool
has n [] = false
has n (x ∷ xs) = x == n || has n xs

abbrev pub shift : List Job → List Job
shift [] = []
shift (x ∷ xs) = xs

pub queue_of-set_queue :
    (cid k : ℕ) (q : List Job) (m : Queues)
    → queue_of k (set_queue cid q m) ≡ (if cid == k then q else queue_of k m)
unfolding queue_of set_queue
queue_of-set_queue cid k q [] = refl
queue_of-set_queue cid k q ((j, r) ∷ m) = ground (arith, queue_of-set_queue cid k q m)

pub has-append : (n : ℕ) (xs ys : List ℕ) → has n (xs ++ ys) ≡ (has n xs || has n ys)
unfolding has
has-append n [] ys = refl
has-append n (x ∷ xs) ys = ground (arith, has-append n xs ys)

-- Taking one number out of a set leaves the others.
pub has-keep :
    (n k : ℕ) (xs : List ℕ)
    → has n (keep (λ id. not (id == k)) xs) ≡ (if n == k then false else has n xs)
unfolding has
has-keep n k [] = ground arith
has-keep n k (x ∷ xs) = ground (arith, has-keep n k xs)
