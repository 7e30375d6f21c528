-- ===== src/Live/Session/Leaks.antt =====
-- No lock of ws/lock.ts outlives the session that took it, where no frame comes on a session of
-- ws/session.ts that has closed.
use comdove_fake_backend.Base.{
  Bool-cases, Option-cases, Text, ℕ, ◌≡◌, refl, sym, ◌∙◌, inl, inr, Bool, true, false, not, ◌&&◌,
  Option, none, some, List, [], ◌∷◌, arith,
}
use comdove_fake_backend.Contract.Events.{
  ClientEvent, group_claim, admin_subscribe, message_send, tile_presence, chat_read, tile_autoreply,
}
use comdove_fake_backend.Live.Lock.{Held, holder, claim}
use comdove_fake_backend.Live.Session.{
  Role, unclaimed, group, admin, Session, session_at, SessionDeps, Live, SocketEvent, connects,
  receives, closes, disconnects, elsewhere, fail, claim_lock, claim_as, subscribe_as, pass_on,
  handle, close_role, close, disconnect, with_session, step, run,
}
use comdove_fake_backend.Live.Session.Exclusive.{session_at-kept}
use comdove_fake_backend.Live.Session.Unleaked.{
  Unleaked, set-Unleaked, not_holding, live-Unleaked, claimed-Unleaked, released-Unleaked,
}
use comdove_fake_backend.Live.Session.Runs.{Agrees, step-Agrees, boot, boot-Agrees, release-own}

module _ {W : Type 0} (deps : SessionDeps W) where
  abbrev Tight : Live W → Type 0
  Tight s = Unleaked s.lock s.sessions

  claim_as-Tight :
      (r : Role) (i : ℕ) (k : Session) (g : Text) (now : ℕ) (s : Live W)
      → session_at i s.sessions ≡ some k
      → k.closed ≡ false
      → Tight s
      → Tight (claim_as deps r i k g now s)
  unfolding claim_as fail claim_lock claim
  claim_as-Tight unclaimed i k g now s at live u = elim (Bool-cases (deps.exists g s.world)) [
    | inr e ↦ rw (claim_as, e) u
    | inl e ↦ elim (Option-cases (holder g s.lock)) [
      | inl free ↦
          rw (claim_as, e, claim_lock, claim, free)
            (claimed-Unleaked s.lock s.sessions i k (record k { role = group g }) g now at live free
              u)
      | inr (h, taken) ↦ rw (claim_as, e, claim_lock, claim, taken) u
    ]
  ]
  claim_as-Tight (group f) i k g now s at live u = u
  claim_as-Tight admin i k g now s at live u = u

  subscribe_as-Tight :
      (r : Role) (i : ℕ) (k : Session) (s : Live W)
      → session_at i s.sessions ≡ some k
      → k.closed ≡ false
      → Tight s
      → Tight (subscribe_as deps r i k s)
  unfolding subscribe_as fail
  subscribe_as-Tight unclaimed i k s at live u =
      live-Unleaked s.lock s.sessions i k (record k { role = admin }) at live u
  subscribe_as-Tight (group f) i k s at live u = u
  subscribe_as-Tight admin i k s at live u = u

  pass_on-Tight :
      (r : Role) (i : ℕ) (ev : ClientEvent) (now : ℕ) (s : Live W)
      → Tight s
      → Tight (pass_on deps r i ev now s)
  unfolding pass_on fail
  pass_on-Tight unclaimed i ev now s u = u
  pass_on-Tight (group g) i ev now s u = u
  pass_on-Tight admin i ev now s u = u

  handle-Tight :
      (i : ℕ) (k : Session) (ev : ClientEvent) (now : ℕ) (s : Live W)
      → session_at i s.sessions ≡ some k
      → k.closed ≡ false
      → Tight s
      → Tight (handle deps i k ev now s)
  unfolding handle
  handle-Tight i k (group_claim g) now s at live u = claim_as-Tight k.role i k g now s at live u
  handle-Tight i k admin_subscribe now s at live u = subscribe_as-Tight k.role i k s at live u
  handle-Tight i k (message_send f t b) now s at live u = pass_on-Tight k.role i _ now s u
  handle-Tight i k (tile_presence n o) now s at live u = pass_on-Tight k.role i _ now s u
  handle-Tight i k (chat_read n p) now s at live u = pass_on-Tight k.role i _ now s u
  handle-Tight i k (tile_autoreply n r) now s at live u = pass_on-Tight k.role i _ now s u

  close_role-Tight :
      (r : Role) (i : ℕ) (k : Session) (s : Live W)
      → session_at i s.sessions ≡ some k
      → k.role ≡ r
      → k.closed ≡ false
      → Agrees deps s
      → Tight s
      → Tight (close_role deps i r s)
  unfolding close_role
  close_role-Tight unclaimed i k s at idle live a u =
      set-Unleaked s.lock s.lock s.sessions i k (record { role = unclaimed; closed = true }) at
        (λ g h e. inr (
          not_holding s.lock s.sessions i k g h at
              (λ f x. let clash : unclaimed ≡ group f = sym idle ∙ x in cc) e a,
          e,
        ))
        u
  close_role-Tight admin i k s at idle live a u =
      set-Unleaked s.lock s.lock s.sessions i k (record { role = admin; closed = true }) at
        (λ g h e. inr (
          not_holding s.lock s.sessions i k g h at
              (λ f x. let clash : admin ≡ group f = sym idle ∙ x in cc) e a,
          e,
        ))
        u
  close_role-Tight (group g) i k s at mine live a u =
      let (h, e, own) = a.roles i k g at mine live in
      rw (release-own deps g i h s.lock e own) (
        released-Unleaked s.lock s.sessions i k (record { role = group g; closed = true }) g at mine
          a u)

  close-Tight :
      (i : ℕ) (k : Session) (s : Live W)
      → session_at i s.sessions ≡ some k
      → Agrees deps s
      → Tight s
      → Tight (close deps i k s)
  unfolding close
  close-Tight i k s at a u = elim (Bool-cases k.closed) [
    | inl shut ↦ rw (close, shut) u
    | inr live ↦ rw (close, live) (close_role-Tight k.role i k s at refl live a u)
  ]

  with_session-Tight :
      (i : ℕ) (f : Session → Live W → Live W) (s : Live W)
      → ((k : Session) → session_at i s.sessions ≡ some k → Tight (f k s))
      → Tight s
      → Tight (with_session deps i f s)
  unfolding with_session
  with_session-Tight i f s h u = elim (Option-cases (session_at i s.sessions)) [
    | inl e ↦ rw (with_session, e) u
    | inr (k, e) ↦ rw (with_session, e) (h k e)
  ]

  -- No frame comes on a session that has closed.
  abbrev pub is_shut : Option Session → Bool
  is_shut none = false
  is_shut (some k) = k.closed

  unfoldable pub fits : SocketEvent W → Live W → Bool
  fits (receives i ev now) s = not (is_shut (session_at i s.sessions))
  fits _ s = true

  unfoldable pub is_orderly : List (SocketEvent W) → Live W → Bool
  unfolding fits
  is_orderly [] s = true
  is_orderly (e ∷ es) s = fits e s && is_orderly es (step deps e s)

  step-Tight :
      (e : SocketEvent W) (s : Live W)
      → fits e s ≡ true
      → Agrees deps s
      → Tight s
      → Tight (step deps e s)
  unfolding step disconnect fits
  step-Tight connects s fit a u = record {
    held = λ g h e.
        let (k, there, live) = u.held g h e in
        (k, session_at-kept h.owner k s.sessions there, live);
  }
  step-Tight (receives i ev now) s fit a u =
      with_session-Tight i (λ k. handle deps i k ev now) s
        (λ k at.
          let fit_k : not k.closed ≡ true = rw at at fit in
          let live : k.closed ≡ false = ground arith in handle-Tight i k ev now s at live u)
        u
  step-Tight (closes i) s fit a u =
      with_session-Tight i (close deps i) s (λ k at. close-Tight i k s at a u) u
  step-Tight (disconnects i) s fit a u =
      with_session-Tight i (disconnect deps i) s (λ k at. close-Tight i k s at a u) u
  step-Tight (elsewhere w) s fit a u = u

  run_from-Tight :
      (es : List (SocketEvent W)) (s : Live W)
      → is_orderly es s ≡ true
      → Agrees deps s
      → Tight s
      → Agrees deps (run deps es s) × Tight (run deps es s)
  unfolding run is_orderly
  run_from-Tight [] s fit a u = (a, u)
  run_from-Tight (e ∷ es) s fit a u =
      let (first, rest) : (fits e s ≡ true) × (is_orderly es (step deps e s) ≡ true) =
        ground arith in
      run_from-Tight es (step deps e s) rest (step-Agrees deps e s a) (step-Tight e s first a u)

  -- Where no frame comes on a session that has closed, whatever else happens to the sockets from the
  -- boot on, a lock that is held is held by a session with the role of its group that is not closed:
  -- no lock outlives the session that took it.
  pub no_lock_leaks :
      (w : W) (es : List (SocketEvent W)) (g : Text) (h : Held)
      → is_orderly es (boot deps w) ≡ true
      → holder g (run deps es (boot deps w)).lock ≡ some h
      → (k : Session) × (session_at h.owner (run deps es (boot deps w)).sessions ≡ some k)
        × (k.role ≡ group g)
        × (k.closed ≡ false)
  unfolding holder
  no_lock_leaks w es g h fit taken =
      let (a, u) =
        run_from-Tight es (boot deps w) fit (boot-Agrees deps w) (record { held = λ f x e. cc }) in
      let (k, there, live) = u.held g h taken in
      let (q, there', role) = a.holders g h taken in
      let both : some q ≡ some k = sym there' ∙ there in
      let eq : q ≡ k = ground arith in (k, there, rw (← eq) role, live)
