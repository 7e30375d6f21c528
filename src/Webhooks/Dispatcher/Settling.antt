-- ===== src/Webhooks/Dispatcher/Settling.antt =====
-- The calls of webhooks/dispatcher.ts that change its queues keep the scheduling invariant.
use comdove_fake_backend.Base.{
  ltb, ◌==◌, if◌then◌else◌, ltb→lt, Bool-cases, length, keep, length-keep-le, All, ℕ, zero, suc,
  ◌≤◌, ◌<◌, ◌≡◌, refl, inl, inr, true, false, not, none, some, List, [], ◌∷◌, arith,
}
use comdove_fake_backend.Webhooks.JobStore.{Job}
use comdove_fake_backend.Webhooks.Dispatcher.QueueMap.{
  queue_of, set_queue, has, shift, queue_of-set_queue,
}
use comdove_fake_backend.Webhooks.Dispatcher.Types.{
  Task, Options, Dispatcher, cid_of, task_of, is_running,
}
use comdove_fake_backend.Webhooks.Dispatcher.Slots.{max_running, pump, admit, settle}
use comdove_fake_backend.Webhooks.Dispatcher.Invariant.{Distinct, Core, Covered, Inv, pump-Core}
use comdove_fake_backend.Webhooks.Dispatcher.Coverage.{
  pump-Covered_self, pump-Covered, Done, pump-Done, pump-Done_self, pump_waiting-le,
}

module _ {S : Type 0} (o : Options) where
  admit_test :
      (fuel cid next : ℕ) (ws : List ℕ) (d : Dispatcher S)
      → let d₁ = record d { waiting = ws } in
        let d₂ = if next == cid then d₁ else pump o next d₁ in
        admit o (suc fuel) cid (next ∷ ws) d
        ≡ (if ltb (length d.running) (max_running o) then admit o fuel cid d₂.waiting d₂ else d)
  unfolding admit
  admit_test fuel cid next ws d = refl

  pub dropped-Core :
      (ws : List ℕ) (d : Dispatcher S) → Core o d → Core o (record d { waiting = ws })
  dropped-Core ws d c = record {
    bounded = c.bounded;
    distinct = c.distinct;
    owned = c.owned;
    heads = c.heads;
  }

  -- The first of the line leaves it: the others keep their place.
  dropped-Covered :
      (k next : ℕ) (ws : List ℕ) (d : Dispatcher S)
      → d.waiting ≡ next ∷ ws
      → Covered o k d
      → (next == k) ≡ false
      → Covered o k (record d { waiting = ws })
  unfolding has
  dropped-Covered k next ws d w (inl q) e = inl q
  dropped-Covered k next ws d w (inr (inl r)) e = inr (inl r)
  dropped-Covered k next ws d w (inr (inr h)) e = inr (inr (rw (e) at (rw w at h)))

  -- After the `while`, nobody waits for a free slot.
  pub admit-Inv :
      (fuel cid : ℕ) (ws : List ℕ) (d : Dispatcher S)
      → length ws ≤ fuel
      → d.waiting ≡ ws
      → Core o d
      → ((k : ℕ) → Covered o k d)
      → Done o cid d
      → Inv o (admit o fuel cid ws d)
  unfolding admit
  admit-Inv zero cid [] d h w c cov done = record { core = c; covered = cov; full = inl w }
  admit-Inv zero cid (next ∷ ws) d h w c cov done = absurd (omega arith)
  admit-Inv (suc fuel) cid [] d h w c cov done = record { core = c; covered = cov; full = inl w }
  admit-Inv (suc fuel) cid (next ∷ ws) d h w c cov done =
      elim (Bool-cases (ltb (length d.running) (max_running o))) [
        | inr e ↦ rw e (record { core = c; covered = cov; full = inr (ground arith) })
        | inl e ↦ rw e (elim (Bool-cases (next == cid)) [
          | inl same ↦ rw same (
              admit-Inv fuel cid ws (record d { waiting = ws }) (omega arith) refl
                (dropped-Core ws d c)
                (λ k. elim (Bool-cases (next == k)) [
                  | inl here ↦
                      let k_is : k ≡ cid = ground arith in
                      rw k_is (elim done [ inl q ↦ inl q | inr r ↦ inr (inl r) ])
                  | inr other ↦ dropped-Covered k next ws d w (cov k) other
                ])
                done)
          | inr other ↦ rw other (
              let d₁ = record d { waiting = ws } in
              let c₁ = dropped-Core ws d c in
              admit-Inv fuel cid (pump o next d₁).waiting (pump o next d₁)
                (omega (arith, pump_waiting-le o next d₁ (ltb→lt _ _ e))) refl
                (pump-Core o next d₁ c₁)
                (λ k. elim (Bool-cases (next == k)) [
                  | inl here ↦
                      let k_is : k ≡ next = ground arith in rw k_is (pump-Covered_self o next d₁ c₁)
                  | inr away ↦
                      pump-Covered o k next d₁ c₁ (dropped-Covered k next ws d w (cov k) away)
                ])
                (pump-Done o cid next d₁ done))
        ])
      ]

pub is_running-keep :
    (k cid : ℕ) (ts : List Task)
    → is_running k (keep (λ t. not (cid_of t == cid)) ts)
      ≡ (if k == cid then false else is_running k ts)
is_running-keep k cid [] = ground arith
is_running-keep k cid (t ∷ ts) = ground (arith, is_running-keep k cid ts)

pub task_of-keep :
    (k cid : ℕ) (ts : List Task)
    → task_of k (keep (λ t. not (cid_of t == cid)) ts) ≡ (if k == cid then none else task_of k ts)
task_of-keep k cid [] = ground arith
task_of-keep k cid (t ∷ ts) = ground (arith, task_of-keep k cid ts)

Distinct-keep :
    (cid : ℕ) (ts : List Task) → Distinct ts → Distinct (keep (λ t. not (cid_of t == cid)) ts)
Distinct-keep cid [] h = tt
Distinct-keep cid (t ∷ ts) h = elim (Bool-cases (cid_of t == cid)) [
  | inl e ↦ rw e (Distinct-keep cid ts h.1)
  | inr e ↦ rw e (ground (arith, is_running-keep (cid_of t) cid ts, h.0), Distinct-keep cid ts h.1)
]

-- The slot of a task that ends is free.
length-keep-lt :
    (cid : ℕ) (ts : List Task)
    → is_running cid ts ≡ true
    → length (keep (λ t. not (cid_of t == cid)) ts) < length ts
length-keep-lt cid [] h = cc
length-keep-lt cid (t ∷ ts) h =
    ground (arith, length-keep-lt cid ts, length-keep-le (λ u. not (cid_of u == cid)) ts)

All-shift {ℓ} : (P : Job → Type ℓ) (q : List Job) → All P q → All P (shift q)
All-shift P [] h = h
All-shift P (j ∷ q) h = h.1

module _ {S : Type 0} (o : Options) where
  -- The state in which the `finally` callback calls `pump`.
  abbrev pub released : ℕ → Dispatcher S → Dispatcher S
  released cid d = record d {
    running = keep (λ t. not (cid_of t == cid)) d.running;
    queues = set_queue cid (shift (queue_of cid d.queues)) d.queues;
  }

  pub released-Core : (cid : ℕ) (d : Dispatcher S) → Core o d → Core o (released cid d)
  released-Core cid d c = record {
    bounded = omega (arith, c.bounded, length-keep-le (λ t. not (cid_of t == cid)) d.running);
    distinct = Distinct-keep cid d.running c.distinct;
    owned = λ k.
        rw (queue_of-set_queue cid k (shift (queue_of cid d.queues)) d.queues)
          (elim (Bool-cases (cid == k)) [
            | inl e ↦
                let same : cid ≡ k = ground arith in
                rw e (
                  All-shift (λ j. j.conversation_id ≡ k) (queue_of cid d.queues)
                    (rw (← same) (c.owned cid)))
            | inr e ↦ rw e (c.owned k)
          ]);
    heads = λ k t found. elim (Bool-cases (k == cid)) [
      | inl e ↦ cc (rw (e, if◌then◌else◌) at (rw (task_of-keep k cid d.running) at found))
      | inr e ↦
          let found' : task_of k d.running ≡ some t =
            ground (arith, task_of-keep k cid d.running) in
          let other : (cid == k) ≡ false = ground arith in
          rw (queue_of-set_queue cid k (shift (queue_of cid d.queues)) d.queues)
            (rw other (c.heads k t found'))
    ];
  }

  released-Covered :
      (k cid : ℕ) (d : Dispatcher S)
      → (k == cid) ≡ false
      → Covered o k d
      → Covered o k (released cid d)
  released-Covered k cid d e cov = ground (
    arith,
    queue_of-set_queue cid k (shift (queue_of cid d.queues)) d.queues,
    is_running-keep k cid d.running,
  )

  pub settle-Inv :
      (cid : ℕ) (d : Dispatcher S)
      → Inv o d
      → is_running cid d.running ≡ true
      → Inv o (settle o cid d)
  unfolding settle
  settle-Inv cid d v on =
      let d₀ = released cid d in
      let c₀ = released-Core cid d v.core in
      let free : length d₀.running < max_running o =
        omega (arith, v.core.bounded, length-keep-lt cid d.running on) in
      admit-Inv o _ cid _ (pump o cid d₀) (omega arith) refl (pump-Core o cid d₀ c₀)
        (λ k. elim (Bool-cases (k == cid)) [
          | inl e ↦ let same : k ≡ cid = ground arith in rw same (pump-Covered_self o cid d₀ c₀)
          | inr e ↦ pump-Covered o k cid d₀ c₀ (released-Covered k cid d e (v.covered k))
        ])
        (pump-Done_self o cid d₀ c₀ free)
