-- ===== src/Webhooks/Dispatcher/Coverage.antt =====
-- No lost wake-up in webhooks/dispatcher.ts: `pump`, `push` and the `finally` callback keep every
-- conversation with work running or waiting.
use comdove_fake_backend.Base.{
  ◌==◌, if◌then◌else◌, ==_iff, Bool-cases, length, length-keep-le, ℕ, ◌≤◌, ◌<◌, ◌≡◌, ◌⊎◌, inl, inr,
  true, false, [], ◌∷◌, arith,
}
use comdove_fake_backend.Webhooks.JobStore.{Job}
use comdove_fake_backend.Webhooks.Dispatcher.QueueMap.{queue_of, has, has-append, has-keep}
use comdove_fake_backend.Webhooks.Dispatcher.Types.{starting, Options, Dispatcher, is_running}
use comdove_fake_backend.Webhooks.Dispatcher.Slots.{max_running, start, park, pump}
use comdove_fake_backend.Webhooks.Dispatcher.Invariant.{
  Core, Covered, is_running-append, Pumps, pump-Pumps,
}

module _ {S : Type 0} where
  park-has : (cid : ℕ) (d : Dispatcher S) → has cid (park cid d).waiting ≡ true
  unfolding park has
  park-has cid d = elim (Bool-cases (has cid d.waiting)) [
    | inl e ↦ rw (e, park) e
    | inr e ↦ rw (e, park) (ground (arith, has-append cid d.waiting (cid ∷ [])))
  ]

  park_queues : (cid : ℕ) (d : Dispatcher S) → (park cid d).queues ≡ d.queues
  unfolding park
  park_queues cid d = ground arith

  park_running : (cid : ℕ) (d : Dispatcher S) → (park cid d).running ≡ d.running
  unfolding park
  park_running cid d = ground arith

  park_still :
      (k cid : ℕ) (d : Dispatcher S) → has k d.waiting ≡ true → has k (park cid d).waiting ≡ true
  unfolding park
  park_still k cid d h = ground (arith, has-append k d.waiting (cid ∷ []))

  start_runs :
      (cid : ℕ) (job : Job) (d : Dispatcher S)
      → job.conversation_id ≡ cid
      → is_running cid (start cid job d).running ≡ true
  unfolding start
  start_runs cid job d own = ground (
    arith,
    is_running-append cid d.running (record { job = job; phase = starting job.not_before } ∷ []),
  )

  start_still_runs :
      (k cid : ℕ) (job : Job) (d : Dispatcher S)
      → is_running k d.running ≡ true
      → is_running k (start cid job d).running ≡ true
  unfolding start
  start_still_runs k cid job d h = ground (
    arith,
    is_running-append k d.running (record { job = job; phase = starting job.not_before } ∷ []),
  )

  start_waiting :
      (k cid : ℕ) (job : Job) (d : Dispatcher S)
      → has k (start cid job d).waiting ≡ (if k == cid then false else has k d.waiting)
  unfolding start
  start_waiting k cid job d = has-keep k cid d.waiting

module _ {S : Type 0} (o : Options) where
  pub Pumps-queues : (cid : ℕ) (d d' : Dispatcher S) → Pumps o cid d d' → d'.queues ≡ d.queues
  unfolding start
  Pumps-queues cid d d' (inl (e, _)) = rw e
  Pumps-queues cid d d' (inr (inl (e, _))) = rw e (park_queues cid d)
  Pumps-queues cid d d' (inr (inr (job, rest, e, q, idle, free_slot))) = rw e

  pub pump_still_runs :
      (k cid : ℕ) (d : Dispatcher S)
      → is_running k d.running ≡ true
      → is_running k (pump o cid d).running ≡ true
  pump_still_runs k cid d h = elim (pump-Pumps o cid d) [
    | inl (e, _) ↦ rw e h
    | inr (inl (e, _)) ↦ rw (e, park_running cid d) h
    | inr (inr (job, rest, e, q, idle, free_slot)) ↦ rw e (start_still_runs k cid job d h)
  ]

  pub pump-Covered_self : (cid : ℕ) (d : Dispatcher S) → Core o d → Covered o cid (pump o cid d)
  pump-Covered_self cid d c = elim (pump-Pumps o cid d) [
    | inl (e, inl r) ↦ rw e (inr (inl r))
    | inl (e, inr q) ↦ rw e (inl q)
    | inr (inl (e, _)) ↦ rw e (inr (inr (park-has cid d)))
    | inr (inr (job, rest, e, q, idle, free_slot)) ↦
        rw e (inr (inl (start_runs cid job d (rw q at (c.owned cid)).0)))
  ]

  pub pump-Covered :
      (k cid : ℕ) (d : Dispatcher S) → Core o d → Covered o k d → Covered o k (pump o cid d)
  pump-Covered k cid d c (inl q) = inl (rw (Pumps-queues cid d _ (pump-Pumps o cid d)) q)
  pump-Covered k cid d c (inr (inl r)) = inr (inl (pump_still_runs k cid d r))
  pump-Covered k cid d c (inr (inr w)) = elim (pump-Pumps o cid d) [
    | inl (e, _) ↦ rw e (inr (inr w))
    | inr (inl (e, _)) ↦ rw e (inr (inr (park_still k cid d w)))
    | inr (inr (job, rest, e, q, idle, free_slot)) ↦ elim (Bool-cases (k == cid)) [
      | inl same ↦
          let there : k ≡ cid = (==_iff k cid).0 same in rw there (pump-Covered_self cid d c)
      | inr other ↦ rw e (inr (inr (rw (start_waiting k cid job d, other) w)))
    ]
  ]

  -- A conversation that runs or has no work needs no place in the line.
  abbrev pub Done : ℕ → Dispatcher S → Type 0
  Done cid d = (queue_of cid d.queues ≡ []) ⊎ (is_running cid d.running ≡ true)

  pub pump-Done : (k cid : ℕ) (d : Dispatcher S) → Done k d → Done k (pump o cid d)
  pump-Done k cid d (inl q) = inl (rw (Pumps-queues cid d _ (pump-Pumps o cid d)) q)
  pump-Done k cid d (inr r) = inr (pump_still_runs k cid d r)

  -- With a slot free, the conversation that is pumped has no more need of one.
  pub pump-Done_self :
      (cid : ℕ) (d : Dispatcher S)
      → Core o d
      → length d.running < max_running o
      → Done cid (pump o cid d)
  pump-Done_self cid d c free = elim (pump-Pumps o cid d) [
    | inl (e, inl r) ↦ rw e (inr r)
    | inl (e, inr q) ↦ rw e (inl q)
    | inr (inl (e, taken)) ↦ absurd (omega arith)
    | inr (inr (job, rest, e, q, idle, free_slot)) ↦
        rw e (inr (start_runs cid job d (rw q at (c.owned cid)).0))
  ]

  pub pump_waiting-le :
      (cid : ℕ) (d : Dispatcher S)
      → length d.running < max_running o
      → length (pump o cid d).waiting ≤ length d.waiting
  unfolding start
  pump_waiting-le cid d free = elim (pump-Pumps o cid d) [
    | inl (e, _) ↦ rw e (omega arith)
    | inr (inl (e, taken)) ↦ absurd (omega arith)
    | inr (inr (job, rest, e, q, idle, free_slot)) ↦ rw e (length-keep-le _ d.waiting)
  ]
