-- ===== src/Live/Delivery/Online.antt =====
-- `deliver` of core/delivery.ts to a tile that is online.
use comdove_fake_backend.Base.{
  Bool-cases, Option-cases, text_eq, has_text, insert_by, sort_by, ℕ, ◌≡◌, refl, sym, ap, ◌∙◌, inl,
  inr, Bool, true, false, none, some, List, [], ◌∷◌, ◌++◌,
}
use comdove_fake_backend.Contract.Types.{MessageStatus, BusinessNumber, StoredMessage, is_outbound}
use comdove_fake_backend.Contract.Events.{ServerEvent, log_entry, log_update}
use comdove_fake_backend.Store.Registry.{get_business}
use comdove_fake_backend.Store.AutoReply.{compute_reply}
use comdove_fake_backend.Store.Messages.{all_messages, get_message, set_delivered, by_conversation}
use comdove_fake_backend.Store.Messages.Marks.{get_message-set_delivered}
use comdove_fake_backend.Store.Messages.Stored.{find_sound}
use comdove_fake_backend.Lifecycle.{
  Outcome, done, announce, enqueue_webhook, queue_status, queue_all, undelivered, delivered,
}
use comdove_fake_backend.Lifecycle.Kept.{delivered-Keeps}
use comdove_fake_backend.Lifecycle.Delivered.{queue_status-db}
use comdove_fake_backend.Live.Wire.{to_ws_message}
use comdove_fake_backend.Live.Feed.{Feed, has_number, send, send_all, broadcast, log_entry_changed}
use comdove_fake_backend.Live.Feed.Kept.{Kept}
use comdove_fake_backend.Live.Delivery.{
  Platform, Server, live_deps, with_feed, session_for, auto_reply_to, auto_reply_all, deliver_all,
  deliver,
}
use comdove_fake_backend.Live.Delivery.Kept.{auto_reply_to-Keeps, on_event-Keeps}

-- The frames so far, and then others.
abbrev pub Extends : List (ℕ × ServerEvent) → Feed → Type 0
Extends frames f = (more : List (ℕ × ServerEvent)) × (f.frames ≡ frames ++ more)

append_assoc : {A : Type 0} (xs ys zs : List A) → (xs ++ ys) ++ zs ≡ xs ++ (ys ++ zs)
append_assoc [] ys zs = refl
append_assoc (x ∷ xs) ys zs = ap (λ u. x ∷ u) (append_assoc xs ys zs)

append_nil : {A : Type 0} (xs : List A) → xs ++ [] ≡ xs
append_nil [] = refl
append_nil (x ∷ xs) = ap (λ u. x ∷ u) (append_nil xs)

send-Extends :
    (frames : List (ℕ × ServerEvent)) (i : ℕ) (ev : ServerEvent) (f : Feed)
    → Extends frames f
    → Extends frames (send i ev f)
unfolding send
send-Extends frames i ev f (more, e) = elim (Bool-cases (has_number i f.gone)) [
  | inl gone ↦ rw (send, gone) (more, e)
  | inr free ↦
      rw (send, free)
        (
          more ++ (i, ev) ∷ [],
          ap (λ u. u ++ (i, ev) ∷ []) e ∙ append_assoc frames more ((i, ev) ∷ []),
        )
]

send_all-Extends :
    (frames : List (ℕ × ServerEvent)) (is : List ℕ) (ev : ServerEvent) (f : Feed)
    → Extends frames f
    → Extends frames (send_all is ev f)
unfolding send_all
send_all-Extends frames [] ev f h = h
send_all-Extends frames (i ∷ is) ev f h =
    send_all-Extends frames is ev (send i ev f) (send-Extends frames i ev f h)

-- Frames that are written stay written.
pub frames-Kept : (frames : List (ℕ × ServerEvent)) → Kept (Extends frames)
unfolding log_entry_changed broadcast
frames-Kept frames = record {
  on_send = λ i ev f e h. send-Extends frames i ev f h;
  on_log = λ id e f same h. elim (Bool-cases (has_text id f.announced)) [
    | inl x ↦ rw (log_entry_changed, x) (send_all-Extends frames f.admins (log_update e) f h)
    | inr x ↦
        rw (log_entry_changed, x)
          (send_all-Extends frames f.admins (log_entry e)
            (record f { announced = f.announced ++ id ∷ [] }) h)
  ];
  on_timer = λ rs f h. h;
  on_draw = λ n f h. h;
  on_gone = λ is f h. h;
}

module _ (p : Platform) where
  auto_reply_to-db :
      (m : StoredMessage) (now : ℕ) (w : Server) → (auto_reply_to p m now w).db ≡ w.db
  unfolding auto_reply_to
  auto_reply_to-db m now w =
      elim (Option-cases (compute_reply p.to_lower m.customer_number m.body w.db)) [
        | inl e ↦ rw (auto_reply_to, e) refl
        | inr (r, e) ↦ rw (auto_reply_to, e) refl
      ]

  delivered_true :
      (r q : Server × Outcome (Unit {0}))
      → r ≡ q
      → ◌≡◌ {A = Server × Outcome Bool} (r.0, done true) (q.0, done true)
  delivered_true r q e = ap (λ (x : Server × Outcome (Unit {0})). (x.0, done true)) e

  queue_one :
      (s : StoredMessage) (b : BusinessNumber) (now : ℕ) (w : Server)
      → get_business s.phone_number_id w.db ≡ some b
      → let r = queue_all (live_deps p) (s ∷ []) MessageStatus.delivered now w in
        (r.1 ≡ done tt) × (r.0.db ≡ w.db)
  unfolding queue_all queue_status announce enqueue_webhook
  queue_one s b now w known = (
    rw (queue_all, queue_status, known) refl,
    rw (queue_all, queue_status, known)
        (queue_status-db (live_deps p) s MessageStatus.delivered now none w),
  )

  -- One stored message of a registered business that is not delivered yet.
  delivered_one :
      (m s : StoredMessage) (b : BusinessNumber) (now : ℕ) (w : Server)
      → is_outbound m.direction ≡ true
      → get_message m.wamid w.db ≡ some s
      → s.delivered_at ≡ none
      → get_business s.phone_number_id w.db ≡ some b
      → ((delivered (live_deps p) (m ∷ []) now w).1 ≡ done tt)
        × ((delivered (live_deps p) (m ∷ []) now w).0.db ≡ set_delivered (s.wamid ∷ []) now w.db)
  unfolding delivered undelivered sort_by insert_by queue_all get_business set_delivered
  delivered_one m s b now w out found fresh known =
      let db = set_delivered (s.wamid ∷ []) now w.db in
      let w₀ : Server = record w { db = db } in
      let known' : get_business s.phone_number_id db ≡ some b = known in
      let kept = queue_status-db (live_deps p) s MessageStatus.delivered now none w₀ in
      let todo : undelivered (live_deps p) (m ∷ []) w.db ≡ s ∷ [] =
        rw (undelivered, out, found, fresh) refl in
      let sorted : sort_by by_conversation (undelivered (live_deps p) (m ∷ []) w.db) ≡ s ∷ [] =
        rw todo refl in
      rw (delivered, sorted) (queue_one s b now w₀ known')

  -- A message to an online tile, whose socket is open, that is stored, not delivered yet, and of a
  -- registered business number: `deliver` succeeds, the message is the first frame that is written,
  -- to the tile's session, and it is delivered now.
  pub deliver_online :
      (m s : StoredMessage) (b : BusinessNumber) (i now : ℕ) (w : Server)
      → is_outbound m.direction ≡ true
      → session_for m.customer_number w ≡ some i
      → has_number i w.bus.gone ≡ false
      → get_message m.wamid w.db ≡ some s
      → s.delivered_at ≡ none
      → get_business s.phone_number_id w.db ≡ some b
      → (w' : Server) × ◌≡◌ {A = Server × Outcome Bool} (deliver p m now w) (w', done true)
        × Extends
            (w.bus.frames
              ++ (i, ServerEvent.message_new m.customer_number m.customer_number (to_ws_message m))
                ∷ [])
            w'.bus
        × (get_message m.wamid w'.db ≡ some (record s { delivered_at = some now }))
  unfolding deliver deliver_all auto_reply_all send get_message get_business
  deliver_online m s b i now w out online writable found fresh known =
      let ev = ServerEvent.message_new m.customer_number m.customer_number (to_ws_message m) in
      let frames = w.bus.frames ++ (i, ev) ∷ [] in
      let w₁ = with_feed (send i ev) w in
      let written : Extends frames w₁.bus = rw (send, writable) ([], sym (append_nil frames)) in
      let d = delivered (live_deps p) (m ∷ []) now w₁ in
      let (ok_done, marked) = delivered_one m s b now w₁ out found fresh known in
      let kept : Extends frames d.0.bus =
        delivered-Keeps (live_deps p) (Extends frames) (on_event-Keeps (frames-Kept frames))
          (m ∷ []) now w₁ written in
      let w' = auto_reply_to p m now d.0 in
      let all_done : ◌≡◌ {A = Server × Outcome (Unit {0})} (deliver_all p (m ∷ []) now w₁)
          (w', done tt) =
        rw (deliver_all, ok_done, auto_reply_all) refl in
      let named = find_sound (λ x. text_eq x.wamid m.wamid) (all_messages w.db) s found in
      (
        w',
        rw (deliver, out, online, all_done)
            (delivered_true (deliver_all p (m ∷ []) now w₁) (w', done tt) all_done),
        auto_reply_to-Keeps (frames-Kept frames) p m now d.0 kept,
        rw
            (
              auto_reply_to-db m now d.0,
              marked,
              get_message-set_delivered m.wamid (s.wamid ∷ []) now w.db,
              found,
              named,
              fresh,
            )
            refl,
      )
