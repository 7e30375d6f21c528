-- ===== src/Live/Engine/Runs.antt =====
-- Whatever happens to the server, the locks, the roles and the session index agree.
use comdove_fake_backend.Base.{
  if◌then◌else◌, Bool-cases, Option-cases, Text, lit, ℕ, ◌≡◌, refl, inl, inr, [], ◌∷◌, ◌++◌,
}
use comdove_fake_backend.Contract.Events.{
  WsErrorCode, bad_request, not_claimed, already_claimed, unknown_group, ClientEvent, group_claim,
  message_send, tile_presence, chat_read, tile_autoreply, admin_subscribe, group_claimed,
  group_locked,
}
use comdove_fake_backend.Lifecycle.Kept.{Outcome-cases}
use comdove_fake_backend.Live.Lock.{claim, LockTable, holder, release}
use comdove_fake_backend.Live.Session.{
  Role, unclaimed, group, admin, Session, Live, session_at, connects, receives, closes, disconnects,
  elsewhere, fail, claim_lock, claim_as, subscribe_as, pass_on, handle, close_role, close,
  disconnect, with_session, step,
}
use comdove_fake_backend.Live.Session.Runs.{Agrees, step-Agrees}
use comdove_fake_backend.Live.Feed.{
  send, subscribe, subscribe, Feed, has_number, set_indexed, remove_indexed, groups_event,
  numbers_event, unsubscribe,
}
use comdove_fake_backend.Live.Feed.Kept.{lock_changed-Keeps}
use comdove_fake_backend.Live.Delivery.{Platform, Server, with_feed, deliver_queued}
use comdove_fake_backend.Live.Delivery.Kept.{deliver_queued-Keeps}
use comdove_fake_backend.Live.GroupEvents.Kept.{error_to-Keeps, on_group_event-Keeps}
use comdove_fake_backend.Live.Engine.{
  snapshot_or_blank, enter_index, leave_index, claimed, released, hooks,
}
use comdove_fake_backend.Live.Engine.Indexed.{
  send-index, Matches, claimed-Matches, released-Matches, same_index-Kept,
}

module _ (p : Platform) where
  -- The index is that of the locks, which agree with the roles.
  pub record Coherent (s : Live Server) : Type 0 where
    pub agrees : Agrees (hooks p) s
    pub matches : Matches s.lock s.world.bus.index

  claimed-index :
      (i : ℕ) (g : Text) (now : ℕ) (lock : LockTable) (w : Server)
      → (claimed p i g now lock w).bus.index ≡ set_indexed g i w.bus.index
  unfolding claimed
  claimed-index i g now lock w =
      let index = set_indexed g i w.bus.index in
      let k = same_index-Kept index in
      let w₁ = with_feed (enter_index i g) w in
      let r = deliver_queued p g now w₁ in
      let h = deliver_queued-Keeps k p g now w₁ refl in
      elim (Outcome-cases r.1) [
        | inl (u, e) ↦ rw (claimed, e) (lock_changed-Keeps k lock r.0.db r.0.bus h)
        | inr (x, e) ↦
            rw (claimed, e) (error_to-Keeps k p i bad_request (lit "internal error") r.0 h)
      ]

  released-index :
      (i : ℕ) (g : Text) (lock : LockTable) (w : Server)
      → (released p i g lock w).bus.index ≡ remove_indexed g i w.bus.index
  unfolding released
  released-index i g lock w =
      lock_changed-Keeps (same_index-Kept (remove_indexed g i w.bus.index)) lock w.db
        (leave_index i g w.bus) refl

  abbrev IsIndexed : Live Server → Type 0
  IsIndexed s = Matches s.lock s.world.bus.index

  fail-IsIndexed :
      (i : ℕ) (code : WsErrorCode) (message : Text) (s : Live Server)
      → IsIndexed s
      → IsIndexed (fail (hooks p) i code message s)
  unfolding fail hooks
  fail-IsIndexed i code message s m =
      let k = same_index-Kept s.world.bus.index in
      rw (error_to-Keeps k p i code message s.world refl) m

  claim_lock-IsIndexed :
      (i : ℕ) (k : Session) (g : Text) (now : ℕ) (s : Live Server)
      → IsIndexed s
      → IsIndexed (claim_lock (hooks p) i k g now s)
  unfolding claim_lock hooks claim
  claim_lock-IsIndexed i k g now s m = elim (Option-cases (holder g s.lock)) [
    | inr (h, e) ↦
        rw (claim_lock, claim, e) (rw (send-index i (group_locked g h.since) s.world.bus) m)
    | inl e ↦
        let lock = s.lock ++ (g, record { owner = i; since = now }) ∷ [] in
        let ev = group_claimed (snapshot_or_blank g s.world.db) in
        rw
          (
            claim_lock,
            claim,
            e,
            claimed-index i g now lock (with_feed (send i ev) s.world),
            send-index i ev s.world.bus,
          )
          (claimed-Matches g i now s.lock s.world.bus.index e m)
  ]

  claim_as-IsIndexed :
      (r : Role) (i : ℕ) (k : Session) (g : Text) (now : ℕ) (s : Live Server)
      → IsIndexed s
      → IsIndexed (claim_as (hooks p) r i k g now s)
  unfolding claim_as
  claim_as-IsIndexed unclaimed i k g now s m = elim (Bool-cases ((hooks p).exists g s.world)) [
    | inl e ↦ rw (claim_as, e) (claim_lock-IsIndexed i k g now s m)
    | inr e ↦ rw (claim_as, e) (fail-IsIndexed i unknown_group (lit "unknown group: " ++ g) s m)
  ]
  claim_as-IsIndexed (group f) i k g now s m =
      fail-IsIndexed i already_claimed (lit "this socket already has a role") s m
  claim_as-IsIndexed admin i k g now s m =
      fail-IsIndexed i already_claimed (lit "this socket already has a role") s m

  subscribe_as-IsIndexed :
      (r : Role) (i : ℕ) (k : Session) (s : Live Server)
      → IsIndexed s
      → IsIndexed (subscribe_as (hooks p) r i k s)
  unfolding subscribe_as hooks subscribe
  subscribe_as-IsIndexed unclaimed i k s m =
      let f : Feed = record s.world.bus {
        admins =
            if has_number i s.world.bus.admins
            then s.world.bus.admins
            else s.world.bus.admins ++ i ∷ [];
      } in
      let ev = groups_event s.lock s.world.db in
      rw
        (subscribe, send-index i (numbers_event s.lock s.world.db) (send i ev f), send-index i ev f)
        m
  subscribe_as-IsIndexed (group f) i k s m =
      fail-IsIndexed i already_claimed (lit "this socket already has a role") s m
  subscribe_as-IsIndexed admin i k s m =
      fail-IsIndexed i already_claimed (lit "this socket already has a role") s m

  pass_on-IsIndexed :
      (r : Role) (i : ℕ) (ev : ClientEvent) (now : ℕ) (s : Live Server)
      → IsIndexed s
      → IsIndexed (pass_on (hooks p) r i ev now s)
  unfolding pass_on hooks
  pass_on-IsIndexed unclaimed i ev now s m =
      fail-IsIndexed i not_claimed (lit "claim a group first") s m
  pass_on-IsIndexed admin i ev now s m =
      fail-IsIndexed i not_claimed (lit "claim a group first") s m
  pass_on-IsIndexed (group g) i ev now s m =
      rw (on_group_event-Keeps (same_index-Kept s.world.bus.index) p i g ev now s.lock s.world refl)
        m

  handle-IsIndexed :
      (i : ℕ) (k : Session) (ev : ClientEvent) (now : ℕ) (s : Live Server)
      → IsIndexed s
      → IsIndexed (handle (hooks p) i k ev now s)
  unfolding handle
  handle-IsIndexed i k (group_claim g) now s m = claim_as-IsIndexed k.role i k g now s m
  handle-IsIndexed i k admin_subscribe now s m = subscribe_as-IsIndexed k.role i k s m
  handle-IsIndexed i k (message_send f t b) now s m =
      pass_on-IsIndexed k.role i (message_send f t b) now s m
  handle-IsIndexed i k (tile_presence n o) now s m =
      pass_on-IsIndexed k.role i (tile_presence n o) now s m
  handle-IsIndexed i k (chat_read n q) now s m = pass_on-IsIndexed k.role i (chat_read n q) now s m
  handle-IsIndexed i k (tile_autoreply n r) now s m =
      pass_on-IsIndexed k.role i (tile_autoreply n r) now s m

  close_role-IsIndexed :
      (i : ℕ) (r : Role) (s : Live Server) → IsIndexed s → IsIndexed (close_role (hooks p) i r s)
  unfolding close_role hooks unsubscribe
  close_role-IsIndexed i unclaimed s m = m
  close_role-IsIndexed i admin s m = m
  close_role-IsIndexed i (group g) s m =
      let lock = (release g i s.lock).1 in
      rw (released-index i g lock s.world) (released-Matches g i s.lock s.world.bus.index m)

  close-IsIndexed :
      (i : ℕ) (k : Session) (s : Live Server) → IsIndexed s → IsIndexed (close (hooks p) i k s)
  unfolding close
  close-IsIndexed i k s m = elim (Bool-cases k.closed) [
    | inl e ↦ rw (close, e) m
    | inr e ↦ rw (close, e) (close_role-IsIndexed i k.role s m)
  ]

  with_session-IsIndexed :
      (i : ℕ) (f : Session → Live Server → Live Server) (s : Live Server)
      → ((k : Session) → IsIndexed (f k s))
      → IsIndexed s
      → IsIndexed (with_session (hooks p) i f s)
  unfolding with_session
  with_session-IsIndexed i f s next m = elim (Option-cases (session_at i s.sessions)) [
    | inl e ↦ rw (with_session, e) m
    | inr (k, e) ↦ rw (with_session, e) (next k)
  ]

  -- `elsewhere` is not among these.
  pub receives-Coherent :
      (i : ℕ) (ev : ClientEvent) (now : ℕ) (s : Live Server)
      → Coherent s
      → Coherent (step (hooks p) (receives i ev now) s)
  unfolding step
  receives-Coherent i ev now s c = record {
    agrees = step-Agrees (hooks p) (receives i ev now) s c.agrees;
    matches =
        with_session-IsIndexed i (λ k. handle (hooks p) i k ev now) s
          (λ k. handle-IsIndexed i k ev now s c.matches) c.matches;
  }

  pub closes-Coherent :
      (i : ℕ) (s : Live Server) → Coherent s → Coherent (step (hooks p) (closes i) s)
  unfolding step
  closes-Coherent i s c = record {
    agrees = step-Agrees (hooks p) (closes i) s c.agrees;
    matches =
        with_session-IsIndexed i (close (hooks p) i) s (λ k. close-IsIndexed i k s c.matches)
          c.matches;
  }

  pub disconnects-Coherent :
      (i : ℕ) (s : Live Server) → Coherent s → Coherent (step (hooks p) (disconnects i) s)
  unfolding step disconnect hooks
  disconnects-Coherent i s c = record {
    agrees = step-Agrees (hooks p) (disconnects i) s c.agrees;
    matches =
        with_session-IsIndexed i (disconnect (hooks p) i) s (λ k. close-IsIndexed i k s c.matches)
          c.matches;
  }

  pub connects-Coherent : (s : Live Server) → Coherent s → Coherent (step (hooks p) connects s)
  unfolding step
  connects-Coherent s c = record {
    agrees = step-Agrees (hooks p) connects s c.agrees;
    matches = c.matches;
  }

  -- A change elsewhere that leaves the index alone.
  pub elsewhere-Coherent :
      (w : Server) (s : Live Server)
      → w.bus.index ≡ s.world.bus.index
      → Coherent s
      → Coherent (record s { world = w })
  unfolding step
  elsewhere-Coherent w s e c = record {
    agrees = step-Agrees (hooks p) (elsewhere w) s c.agrees;
    matches = rw e c.matches;
  }
