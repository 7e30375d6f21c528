-- ===== src/Webhooks/Dispatcher/Loop.antt =====
-- The `while` of the `finally` callback of webhooks/dispatcher.ts.
use comdove_fake_backend.Base.{
  ltb, ◌==◌, ltb→lt, Bool-cases, length, keep, is_empty, ℕ, zero, suc, ◌≤◌, ◌≡◌, refl, inl, inr,
  Bool, false, not, ◌&&◌, List, [], ◌∷◌, arith,
}
use comdove_fake_backend.Webhooks.Dispatcher.Types.{Options, Dispatcher, cid_of}
use comdove_fake_backend.Webhooks.Dispatcher.QueueMap.{queue_of, set_queue, shift}
use comdove_fake_backend.Webhooks.Dispatcher.Slots.{max_running, pump, admit, settle}
use comdove_fake_backend.Webhooks.Dispatcher.Coverage.{pump_waiting-le}

module _ {S : Type 0} (o : Options) where
  -- The condition of the loop.
  unfoldable pub goes_on : Dispatcher S → Bool
  goes_on d = ltb (length d.running) (max_running o) && not (is_empty d.waiting)

  idle-ends : (d : Dispatcher S) → d.waiting ≡ [] → goes_on d ≡ false
  unfolding goes_on
  idle-ends d w = elim (Bool-cases (ltb (length d.running) (max_running o))) [
    | inl e ↦ rw (goes_on, e, w) refl
    | inr e ↦ rw (goes_on, e) refl
  ]

  admit-ends :
      (fuel cid : ℕ) (ws : List ℕ) (d : Dispatcher S)
      → d.waiting ≡ ws
      → length ws ≤ fuel
      → goes_on (admit o fuel cid ws d) ≡ false
  unfolding admit goes_on
  admit-ends zero cid [] d w le = idle-ends d w
  admit-ends zero cid (next ∷ ws) d w le = absurd (omega arith)
  admit-ends (suc fuel) cid [] d w le = idle-ends d w
  admit-ends (suc fuel) cid (next ∷ ws) d w le =
      elim (Bool-cases (ltb (length d.running) (max_running o))) [
        | inr e ↦ rw (admit, e) (rw (goes_on, e) refl)
        | inl e ↦ elim (Bool-cases (next == cid)) [
          | inl f ↦
              rw (admit, e, f)
                (admit-ends fuel cid ws (record d { waiting = ws }) refl (omega arith))
          | inr f ↦
              let d₂ = pump o next (record d { waiting = ws }) in
              let shorter =
                pump_waiting-le o next (record d { waiting = ws })
                  (ltb→lt (length d.running) (max_running o) e) in
              rw (admit, e, f) (admit-ends fuel cid d₂.waiting d₂ refl (omega (arith, shorter, le)))
        ]
      ]

  -- When a run has ended, the loop that fills the free slots ends by its own condition, in whatever
  -- state the dispatcher is: it never turns more often than the line was long when it began.
  pub settle-ends : (cid : ℕ) (d : Dispatcher S) → goes_on (settle o cid d) ≡ false
  unfolding settle
  settle-ends cid d =
      let d₁ = pump o cid (record d {
        running = keep (λ t. not (cid_of t == cid)) d.running;
        queues = set_queue cid (shift (queue_of cid d.queues)) d.queues;
      }) in
      admit-ends (length d₁.waiting) cid d₁.waiting d₁ refl (omega arith)
