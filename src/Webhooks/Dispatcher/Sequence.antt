-- ===== src/Webhooks/Dispatcher/Sequence.antt =====
-- The calls and turns of webhooks/dispatcher.ts that keep the order of requests.
use comdove_fake_backend.Base.{
  ◌==◌, Bool-cases, All, Text, ℕ, suc, ◌≤◌, ◌<◌, ◌≡◌, refl, ◌⊎◌, inl, inr, true, false, Option,
  none, some, List, [], ◌∷◌, ◌++◌, arith,
}
use comdove_fake_backend.Webhooks.JobStore.{Job, Operations}
use comdove_fake_backend.Webhooks.Dispatcher.QueueMap.{shift}
use comdove_fake_backend.Webhooks.Dispatcher.Types.{
  Phase, fetching, Task, Request, Options, Dispatcher, cid_of, task_of, is_running, set_phase,
}
use comdove_fake_backend.Webhooks.Dispatcher.Turns.{max_attempts, request, fetch}
use comdove_fake_backend.Webhooks.Dispatcher.Scheduling.{is_running-set_phase}
use comdove_fake_backend.Webhooks.Dispatcher.Order.{
  latest, Follows, Ascending, Clear, Matches, Laws, Ordered,
}

pub Ascending-shift : (q : List Job) → Ascending q → Ascending (shift q)
Ascending-shift [] h = tt
Ascending-shift (j ∷ []) h = tt
Ascending-shift (j ∷ k ∷ q) h = h.1

pub Ascending-append :
    (q : List Job) (j : Job) → Ascending q → All (λ k. k.id < j.id) q → Ascending (q ++ j ∷ [])
Ascending-append [] j h b = tt
Ascending-append (k ∷ []) j h b = (b.0, tt)
Ascending-append (k ∷ l ∷ q) j h b = (h.0, Ascending-append (l ∷ q) j h.1 b.1)

pub All-shift {ℓ} : (P : Job → Type ℓ) (q : List Job) → All P q → All P (shift q)
All-shift P [] h = h
All-shift P (j ∷ q) h = h.1

pub All-suc : (q : List Job) (n : ℕ) → All (λ k. k.id < n) q → All (λ k. k.id < suc n) q
All-suc [] n h = tt
All-suc (j ∷ q) n h = (omega arith, All-suc q n h.1)

pub Clear-mono : (r : Option Request) {m n : ℕ} → m ≤ n → Clear r m → Clear r n
Clear-mono none h c = tt
Clear-mono (some q) h c = omega arith

pub task_of-is_running :
    (cid : ℕ) (ts : List Task) (t : Task) → task_of cid ts ≡ some t → is_running cid ts ≡ true
task_of-is_running cid [] t h = cc
task_of-is_running cid (u ∷ ts) t h = ground (arith, task_of-is_running cid ts t)

-- After a change of phase only this task differs.
task_of-set_phase_cases :
    (k cid : ℕ) (p : Phase) (ts : List Task) (t : Task)
    → task_of k (set_phase cid p ts) ≡ some t
    → ((k ≡ cid) × ((u : Task) × (task_of cid ts ≡ some u) × (t ≡ record u { phase = p })))
      ⊎ (((k == cid) ≡ false) × (task_of k ts ≡ some t))
unfolding set_phase
task_of-set_phase_cases k cid p [] t h = cc
task_of-set_phase_cases k cid p (u ∷ ts) t h = elim (Bool-cases (cid_of u == cid)) [
  | inl e ↦ elim (Bool-cases (cid_of u == k)) [
    | inl f ↦ inl (ground arith, (u, ground arith, ground arith))
    | inr f ↦ inr (ground arith, ground arith)
  ]
  | inr e ↦ elim (Bool-cases (cid_of u == k)) [
    | inl f ↦ inr (ground arith, ground arith)
    | inr f ↦
        let rest : task_of k (set_phase cid p ts) ≡ some t = ground arith in
        elim (task_of-set_phase_cases k cid p ts t rest) [
          | inl (same, (v, fv, tv)) ↦ inl (same, (v, ground arith, tv))
          | inr (other, found) ↦ inr (other, ground arith)
        ]
  ]
]

module _ {S : Type 0} (store : Operations S) (laws : Laws store) (hmac : Text → Text → Text)
    (o : Options) where
  abbrev pub Ord : Dispatcher S → Type 0
  Ord = Ordered store laws hmac o

  -- A task moves on, and no request is sent.
  pub rephased-Ordered :
      (cid : ℕ) (t : Task) (p : Phase) (d d' : Dispatcher S)
      → d'.queues ≡ d.queues
      → d'.running ≡ set_phase cid p d.running
      → d'.requests ≡ d.requests
      → laws.fresh d'.store ≡ laws.fresh d.store
      → task_of cid d.running ≡ some t
      → Matches o (latest cid d.requests) t.job p
      → Ord d
      → Ord d'
  rephased-Ordered cid t p d d' eq er et ef found m v = record {
    chain = rw et v.chain;
    sorted = λ k. rw eq (v.sorted k);
    below = λ k. rw (eq, ef) (v.below k);
    last_below = λ k. rw (et, ef) (v.last_below k);
    tasks = λ k u fu. elim (task_of-set_phase_cases k cid p d.running u (rw er at fu)) [
      | inl (here, (w, fw, e)) ↦ let same : t ≡ w = ground arith in rw (et, here, e, ← same) m
      | inr (other, fk) ↦ rw et (v.tasks k u fk)
    ];
    idle = λ k j rest off q.
        rw et
          (v.idle k j rest (rw (er, is_running-set_phase k cid p d.running) at off) (rw eq at q));
  }

  -- A task sends a request that may follow the conversation's last one.
  pub fetched-Ordered :
      (cid n now : ℕ) (t : Task) (d : Dispatcher S)
      → task_of cid d.running ≡ some t
      → t.job.conversation_id ≡ cid
      → t.job.id < laws.fresh d.store
      → Follows (latest cid d.requests) (request store hmac o t.job n now)
      → 1 ≤ n
      → n ≤ max_attempts o
      → (n ≡ 1 → t.job.not_before ≤ now)
      → Ord d
      → Ord (fetch store hmac o cid t.job n now d)
  unfolding fetch request
  fetched-Ordered cid n now t d found own low follows one within due v =
      let r = request store hmac o t.job n now in
      record {
        chain = (
          simp own follows,
          record { body = refl; signed = refl; within = within; due = due },
          v.chain,
        );
        sorted = v.sorted;
        below = v.below;
        last_below = λ k. elim (Bool-cases (t.job.conversation_id == k)) [
          | inl e ↦ rw e low
          | inr e ↦ rw e (v.last_below k)
        ];
        tasks = λ k u fu. elim (task_of-set_phase_cases k cid _ d.running u fu) [
          | inl (here, (w, fw, e)) ↦
              let same : t ≡ w = ground arith in
              let hit : (t.job.conversation_id == k) ≡ true = ground arith in
              rw (hit, e, ← same) (refl, refl, one, within)
          | inr (other, fk) ↦
              let miss : (t.job.conversation_id == k) ≡ false = ground arith in
              rw miss (v.tasks k u fk)
        ];
        idle = λ k j rest off q.
            let off' = rw (is_running-set_phase k cid (fetching n now) d.running) at off in
            elim (Bool-cases (t.job.conversation_id == k)) [
              | inl e ↦
                  let here : k ≡ cid = ground arith in
                  let on = task_of-is_running cid d.running t found in cc (on, here)
              | inr e ↦ rw e (v.idle k j rest off' q)
            ];
      }
