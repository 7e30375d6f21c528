-- ===== src/Lifecycle/Delivered.antt =====
-- `delivered` of core/lifecycle.ts a second time.
use comdove_fake_backend.Base.{
  Bool-cases, Option-cases, is_some, is_empty, All, Text, text_eq, has_text, insert_by, sort_by, ℕ,
  ◌≡◌, refl, sym, ap, subst, ◌∙◌, ◌⊎◌, inl, inr, Bool, true, false, not, ◌&&◌, ◌||◌, Option, none,
  some, List, [], ◌∷◌, map, arith,
}
use comdove_fake_backend.Contract.Types.{MessageStatus, StoredMessage, is_outbound}
use comdove_fake_backend.Store.Tables.{Db}
use comdove_fake_backend.Store.Registry.{get_business}
use comdove_fake_backend.Store.Messages.{all_messages, get_message, set_delivered, by_conversation}
use comdove_fake_backend.Store.Messages.Marks.{get_message-set_delivered}
use comdove_fake_backend.Store.Messages.Stored.{All-weaken, find_sound}
use comdove_fake_backend.Lifecycle.{
  World, LifecycleDeps, Outcome, done, announce, enqueue_webhook, queue_status, queue_all,
  undelivered, delivered,
}
use comdove_fake_backend.Lifecycle.Kept.{Outcome-cases}

has_text-insert_by :
    (x : Text) (before : StoredMessage → StoredMessage → Bool) (m : StoredMessage)
    (ms : List StoredMessage)
    → has_text x (map (λ m. m.wamid) (insert_by before m ms))
      ≡ (text_eq m.wamid x || has_text x (map (λ m. m.wamid) ms))
unfolding insert_by
has_text-insert_by x before m [] = refl
has_text-insert_by x before m (y ∷ ys) = ground (arith, has_text-insert_by x before m ys)

pub has_text-sort_by :
    (x : Text) (before : StoredMessage → StoredMessage → Bool) (ms : List StoredMessage)
    → has_text x (map (λ m. m.wamid) (sort_by before ms)) ≡ has_text x (map (λ m. m.wamid) ms)
unfolding sort_by
has_text-sort_by x before [] = refl
has_text-sort_by x before (m ∷ ms) =
    has_text-insert_by x before m (sort_by before ms)
    ∙ ap (λ b. text_eq m.wamid x || b) (has_text-sort_by x before ms)

-- The stored row is there and not delivered yet.
abbrev pub is_pending_row : Option StoredMessage → Bool
is_pending_row none = false
is_pending_row (some s) = not (is_some s.delivered_at)

module _ {B : Type 0} (d : LifecycleDeps B) where
  abbrev pub waits : Db → StoredMessage → Bool
  waits db m = is_outbound m.direction && is_pending_row (get_message m.wamid db)

  -- Each message of the list that is not delivered is among these ids.
  abbrev pub Covered : List Text → Db → List StoredMessage → Type 0
  Covered ws db ms = All (λ (m : StoredMessage). waits db m ≡ true → has_text m.wamid ws ≡ true) ms

  Covered-more :
      (w : Text) (ws : List Text) (db : Db) (ms : List StoredMessage)
      → Covered ws db ms
      → Covered (w ∷ ws) db ms
  Covered-more w ws db ms c =
      All-weaken _ _ (λ m h waiting. let in_rest = h waiting in ground arith) ms c

  -- A message that waits is found under its id; another is left out.
  pub undelivered-cons :
      (m : StoredMessage) (ms : List StoredMessage) (db : Db)
      → ((waits db m ≡ false) × (undelivered d (m ∷ ms) db ≡ undelivered d ms db))
        ⊎ ((waits db m ≡ true)
            × (s : StoredMessage) × (undelivered d (m ∷ ms) db ≡ s ∷ undelivered d ms db)
            × (text_eq s.wamid m.wamid ≡ true))
  unfolding undelivered get_message
  undelivered-cons m ms db = elim (Bool-cases (is_outbound m.direction)) [
    | inr off ↦ inl (rw off refl, rw (undelivered, off) refl)
    | inl on ↦ elim (Option-cases (get_message m.wamid db)) [
      | inl e ↦ inl (rw (on, e) refl, rw (undelivered, on, e) refl)
      | inr (s, e) ↦ elim (Bool-cases (is_some s.delivered_at)) [
        | inl e₁ ↦ inl (rw (on, e, e₁) refl, rw (undelivered, on, e, e₁) refl)
        | inr e₁ ↦
            let found = find_sound (λ x. text_eq x.wamid m.wamid) (all_messages db) s e in
            inr (rw (on, e, e₁) refl, s, rw (undelivered, on, e, e₁) refl, found)
      ]
    ]
  ]

  pub undelivered-Covered :
      (ms : List StoredMessage) (db : Db) → Covered (map (λ m. m.wamid) (undelivered d ms db)) db ms
  unfolding undelivered
  undelivered-Covered [] db = tt
  undelivered-Covered (m ∷ ms) db =
      let rest = undelivered-Covered ms db in
      elim (undelivered-cons m ms db) [
        | inl (idle, e) ↦
            subst (λ u. Covered (map (λ x. x.wamid) u) db (m ∷ ms)) (sym e)
              ((λ waiting. let clash : true ≡ false = rw (← waiting) idle in cc), rest)
        | inr (waiting, s, e, named) ↦
            subst (λ u. Covered (map (λ x. x.wamid) u) db (m ∷ ms)) (sym e)
              (
                (λ h. rw named refl),
                Covered-more s.wamid (map (λ m. m.wamid) (undelivered d ms db)) db ms rest,
              )
      ]

  waits-delivered :
      (ws : List Text) (at : ℕ) (db : Db) (m : StoredMessage)
      → (waits db m ≡ true → has_text m.wamid ws ≡ true)
      → waits (set_delivered ws at db) m ≡ false
  waits-delivered ws at db m c = elim (Bool-cases (is_outbound m.direction)) [
    | inr off ↦ rw off refl
    | inl on ↦ elim (Option-cases (get_message m.wamid db)) [
      | inl e ↦ rw (get_message-set_delivered m.wamid ws at db, e, on) refl
      | inr (s, e) ↦ elim (Bool-cases (has_text m.wamid ws)) [
        | inl marked ↦ rw (get_message-set_delivered m.wamid ws at db, e, marked, on) refl
        | inr other ↦ elim (Bool-cases (is_some s.delivered_at)) [
          | inl e₁ ↦ rw (get_message-set_delivered m.wamid ws at db, e, other, e₁, on) refl
          | inr e₁ ↦ let clash : true ≡ false = rw (← other) (sym (c (rw (on, e, e₁) refl))) in cc
        ]
      ]
    ]
  ]

  Covered-delivered :
      (ws : List Text) (at : ℕ) (db : Db) (ms : List StoredMessage)
      → Covered ws db ms
      → undelivered d ms (set_delivered ws at db) ≡ []
  unfolding undelivered
  Covered-delivered ws at db [] c = refl
  Covered-delivered ws at db (m ∷ ms) c =
      let over = waits-delivered ws at db m c.0 in
      elim (undelivered-cons m ms (set_delivered ws at db)) [
        | inl (idle, e) ↦ e ∙ Covered-delivered ws at db ms c.1
        | inr (waiting, s, e, named) ↦ let clash : true ≡ false = rw (← waiting) over in cc
      ]

  pub queue_status-db :
      (m : StoredMessage) (status : MessageStatus) (at : ℕ) (not_before : Option ℕ) (w : World B)
      → (queue_status d m status at not_before w).0.db ≡ w.db
  unfolding queue_status enqueue_webhook
  queue_status-db m status at not_before w =
      elim (Option-cases (get_business m.phone_number_id w.db)) [
        | inl e ↦ rw (queue_status, e) refl
        | inr (b, e) ↦ rw (queue_status, e) refl
      ]

  pub queue_all-db :
      (ms : List StoredMessage) (status : MessageStatus) (at : ℕ) (w : World B)
      → (queue_all d ms status at w).0.db ≡ w.db
  unfolding queue_all announce
  queue_all-db [] status at w = refl
  queue_all-db (m ∷ ms) status at w =
      let q = queue_status d m status at none w in
      elim (Outcome-cases q.1) [
        | inl (u, e) ↦
            rw (queue_all, e)
              (queue_all-db ms status at (announce d m status at q.0)
                ∙ queue_status-db m status at none w)
        | inr (x, e) ↦ rw (queue_all, e) (queue_status-db m status at none w)
      ]

  nothing_waits :
      (ms : List StoredMessage) (now : ℕ) (w : World B)
      → undelivered d ms w.db ≡ []
      → ◌≡◌ {A = World B × Outcome (Unit {0})} (delivered d ms now w) (w, done tt)
  unfolding delivered sort_by
  nothing_waits ms now w e = rw (delivered, e) refl

  -- Delivering a list of messages a second time, after whatever outcome of the first, does nothing:
  -- no table changes, no webhook is queued, no event is emitted.
  pub delivered_again :
      (ms : List StoredMessage) (now later : ℕ) (w : World B)
      → ◌≡◌ {A = World B × Outcome (Unit {0})}
          (delivered d ms later (delivered d ms now w).0)
          ((delivered d ms now w).0, done tt)
  unfolding delivered
  delivered_again ms now later w =
      let todo = sort_by by_conversation (undelivered d ms w.db) in
      let ids = map (λ m. m.wamid) todo in
      let w₀ : World B = record w { db = set_delivered ids now w.db } in
      let w₁ = (queue_all d todo MessageStatus.delivered now w₀).0 in
      let covered : Covered ids w.db ms =
        All-weaken _ _
          (λ m h waiting.
            has_text-sort_by m.wamid by_conversation (undelivered d ms w.db) ∙ h waiting)
          ms (undelivered-Covered ms w.db) in
      let over : undelivered d ms w₁.db ≡ [] =
        rw (queue_all-db todo MessageStatus.delivered now w₀)
          (Covered-delivered ids now w.db ms covered) in
      elim (Bool-cases (is_empty todo)) [
        | inl e ↦ rw (delivered, e) (rw e refl)
        | inr e ↦ rw (delivered, e) (nothing_waits ms later w₁ over)
      ]
