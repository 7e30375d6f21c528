-- ===== src/Webhooks/Dispatcher/Invariant.antt =====
-- The scheduling invariant of webhooks/dispatcher.ts: slots, queue heads, and no lost wake-up.
use comdove_fake_backend.Base.{
  leb, ◌==◌, Bool-cases, length, length-append, All, ℕ, ◌≤◌, ◌<◌, ◌≡◌, refl, ◌⊎◌, inl, inr, true,
  false, ◌||◌, none, some, List, [], ◌∷◌, ◌++◌, arith,
}
use comdove_fake_backend.Webhooks.JobStore.{Job}
use comdove_fake_backend.Webhooks.Dispatcher.QueueMap.{queue_of, has}
use comdove_fake_backend.Webhooks.Dispatcher.Types.{
  starting, Task, Options, Dispatcher, cid_of, task_of, is_running,
}
use comdove_fake_backend.Webhooks.Dispatcher.Slots.{max_running, start, park, pump_queue, pump}

-- No conversation has two tasks.
abbrev pub Distinct : List Task → Type 0
Distinct [] = Unit
Distinct (t ∷ ts) = (is_running (cid_of t) ts ≡ false) × Distinct ts

module _ {S : Type 0} (o : Options) where
  -- What holds whenever the queues are looked at, also inside a callback.
  pub record Core (d : Dispatcher S) : Type 0 where
    pub bounded : length d.running ≤ max_running o
    pub distinct : Distinct d.running
    pub owned : (cid : ℕ) → All (λ j. j.conversation_id ≡ cid) (queue_of cid d.queues)
    pub heads :
        (cid : ℕ) (t : Task)
        → task_of cid d.running ≡ some t
        → (rest : List Job) × (queue_of cid d.queues ≡ t.job ∷ rest)

  -- A conversation with work runs or waits for a slot.
  abbrev pub Covered : ℕ → Dispatcher S → Type 0
  Covered cid d =
      (queue_of cid d.queues ≡ []) ⊎ (is_running cid d.running ≡ true) ⊎ (has cid d.waiting ≡ true)

  -- Conversations wait only while every slot is taken.
  abbrev pub Full : Dispatcher S → Type 0
  Full d = (d.waiting ≡ []) ⊎ (max_running o ≤ length d.running)

  pub record Inv (d : Dispatcher S) : Type 0 where
    pub core : Core d
    pub covered : (cid : ℕ) → Covered cid d
    pub full : Full d

pub task_of-append :
    (cid : ℕ) (ts us : List Task)
    → is_running cid ts ≡ false
    → task_of cid (ts ++ us) ≡ task_of cid us
task_of-append cid [] us h = refl
task_of-append cid (t ∷ ts) us h = ground (arith, task_of-append cid ts us)

pub task_of-append_found :
    (cid : ℕ) (ts us : List Task) (t : Task)
    → task_of cid ts ≡ some t
    → task_of cid (ts ++ us) ≡ some t
task_of-append_found cid [] us t h = cc
task_of-append_found cid (u ∷ ts) us t h = ground (arith, task_of-append_found cid ts us t)

pub task_of-cases :
    (cid : ℕ) (ts : List Task)
    → ((is_running cid ts ≡ false) × (task_of cid ts ≡ none))
      ⊎ ((t : Task) × (is_running cid ts ≡ true) × (task_of cid ts ≡ some t) × (cid_of t ≡ cid))
task_of-cases cid [] = inl (refl, refl)
task_of-cases cid (u ∷ ts) = elim (Bool-cases (cid_of u == cid)) [
  | inl e ↦ inr (u, ground arith, ground arith, ground arith)
  | inr e ↦ rw (e) (task_of-cases cid ts)
]

pub is_running-append :
    (cid : ℕ) (ts us : List Task)
    → is_running cid (ts ++ us) ≡ (is_running cid ts || is_running cid us)
is_running-append cid [] us = refl
is_running-append cid (t ∷ ts) us = ground (arith, is_running-append cid ts us)

Distinct-append :
    (ts : List Task) (u : Task)
    → Distinct ts
    → is_running (cid_of u) ts ≡ false
    → Distinct (ts ++ u ∷ [])
Distinct-append [] u h e = (refl, tt)
Distinct-append (t ∷ ts) u h e = (
  ground (arith, is_running-append (cid_of t) ts (u ∷ [])),
  Distinct-append ts u h.1 (ground arith),
)

module _ {S : Type 0} (o : Options) where
  -- What `pump` does: nothing, where the conversation runs or has no work; else it takes a slot,
  -- or waits for one.
  abbrev pub Pumps : ℕ → Dispatcher S → Dispatcher S → Type 0
  Pumps cid d d' =
      ((d' ≡ d) × ((is_running cid d.running ≡ true) ⊎ (queue_of cid d.queues ≡ [])))
      ⊎ ((d' ≡ park cid d) × (max_running o ≤ length d.running))
      ⊎ ((job : Job) × (rest : List Job) × (d' ≡ start cid job d)
          × (queue_of cid d.queues ≡ job ∷ rest)
          × (is_running cid d.running ≡ false)
          × (length d.running < max_running o))

  pump_queue-Pumps :
      (cid : ℕ) (q : List Job) (d : Dispatcher S)
      → is_running cid d.running ≡ false
      → queue_of cid d.queues ≡ q
      → Pumps cid d (pump_queue o cid q d)
  unfolding pump_queue
  pump_queue-Pumps cid [] d h e = inl (refl, inr e)
  pump_queue-Pumps cid (job ∷ rest) d h e =
      elim (Bool-cases (leb (max_running o) (length d.running))) [
        | inl f ↦ rw f (inr (inl (refl, ground arith)))
        | inr f ↦ rw f (inr (inr (job, rest, refl, e, h, ground arith)))
      ]

  pump_busy : (cid : ℕ) (d : Dispatcher S) → is_running cid d.running ≡ true → pump o cid d ≡ d
  unfolding pump
  pump_busy cid d e = rw e

  pump_idle :
      (cid : ℕ) (d : Dispatcher S)
      → is_running cid d.running ≡ false
      → pump o cid d ≡ pump_queue o cid (queue_of cid d.queues) d
  unfolding pump
  pump_idle cid d e = rw e

  pub pump-Pumps : (cid : ℕ) (d : Dispatcher S) → Pumps cid d (pump o cid d)
  pump-Pumps cid d = elim (Bool-cases (is_running cid d.running)) [
    | inl e ↦ inl (pump_busy cid d e, inl e)
    | inr e ↦ rw (pump_idle cid d e) (pump_queue-Pumps cid (queue_of cid d.queues) d e refl)
  ]

  pub start-Core :
      (cid : ℕ) (job : Job) (rest : List Job) (d : Dispatcher S)
      → Core o d
      → queue_of cid d.queues ≡ job ∷ rest
      → is_running cid d.running ≡ false
      → length d.running < max_running o
      → Core o (start cid job d)
  unfolding start
  start-Core cid job rest d c q idle free =
      let u : Task = record { job = job; phase = starting job.not_before } in
      let own : job.conversation_id ≡ cid = (rw q at (c.owned cid)).0 in
      record {
        bounded = omega (arith, length-append d.running (u ∷ []));
        distinct = Distinct-append d.running u c.distinct (rw own idle);
        owned = c.owned;
        heads = λ k t found. elim (task_of-cases k d.running) [
          | inl (off, _) ↦
              let got : task_of k (u ∷ []) ≡ some t =
                rw (← task_of-append k d.running (u ∷ []) off) found in
              (rest, ground arith)
          | inr (v, on, fv, _) ↦
              let got : some v ≡ some t =
                rw (← task_of-append_found k d.running (u ∷ []) v fv) found in
              let same : v ≡ t = ground arith in c.heads k t (rw (← same) fv)
        ];
      }

  park-Core : (cid : ℕ) (d : Dispatcher S) → Core o d → Core o (park cid d)
  unfolding park
  park-Core cid d c = elim (Bool-cases (has cid d.waiting)) [
    | inl e ↦ rw e c
    | inr e ↦
        rw e
          (record { bounded = c.bounded; distinct = c.distinct; owned = c.owned; heads = c.heads })
  ]

  pub pump-Core : (cid : ℕ) (d : Dispatcher S) → Core o d → Core o (pump o cid d)
  pump-Core cid d c = elim (pump-Pumps cid d) [
    | inl (e, _) ↦ rw e c
    | inr (inl (e, _)) ↦ rw e (park-Core cid d c)
    | inr (inr (job, rest, e, q, idle, free)) ↦ rw e (start-Core cid job rest d c q idle free)
  ]

  pub restored-Core :
      (d d' : Dispatcher S) → d'.queues ≡ d.queues → d'.running ≡ d.running → Core o d → Core o d'
  restored-Core d d' eq er c = record {
    bounded = rw er c.bounded;
    distinct = rw er c.distinct;
    owned = λ k. rw eq (c.owned k);
    heads = λ k t found. rw eq (c.heads k t (rw er at found));
  }
