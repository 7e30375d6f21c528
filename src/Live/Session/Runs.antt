-- ===== src/Live/Session/Runs.antt =====
-- Whatever happens to the sockets of ws/session.ts, one group has one session.
use comdove_fake_backend.Base.{
  ◌==◌, Bool-cases, Option-cases, keep, Text, text_eq, text_eq_refl, ℕ, ◌≡◌, refl, sym, ap, ◌∙◌,
  inl, inr, true, false, not, none, some, List, [], ◌∷◌, arith,
}
use comdove_fake_backend.Contract.Events.{
  ClientEvent, group_claim, message_send, tile_presence, chat_read, tile_autoreply, admin_subscribe,
}
use comdove_fake_backend.Live.Lock.{Held, LockTable, holder, claim, release, holder-removed}
use comdove_fake_backend.Live.Session.{
  Role, unclaimed, group, admin, Session, SessionDeps, Live, session_at, SocketEvent, connects,
  receives, closes, disconnects, elsewhere, fail, claim_lock, claim_as, subscribe_as, pass_on,
  handle, close_role, close, disconnect, with_session, step, run,
}
use comdove_fake_backend.Live.Session.Exclusive.{Agreed, connects-Agreed, away-Agreed}
use comdove_fake_backend.Live.Session.Claims.{claimed-Agreed, released-Agreed}

module _ {W : Type 0} (deps : SessionDeps W) where
  abbrev pub Agrees : Live W → Type 0
  Agrees s = Agreed s.lock s.sessions

  claim_lock-Agrees :
      (i : ℕ) (k : Session) (g : Text) (now : ℕ) (s : Live W)
      → session_at i s.sessions ≡ some k
      → k.role ≡ unclaimed
      → Agrees s
      → Agrees (claim_lock deps i k g now s)
  unfolding claim_lock claim
  claim_lock-Agrees i k g now s at idle a = elim (Option-cases (holder g s.lock)) [
    | inl free ↦
        rw (claim_lock, claim, free) (claimed-Agreed s.lock s.sessions i k g now at idle free a)
    | inr (h, taken) ↦ rw (claim_lock, claim, taken) a
  ]

  claim_as-Agrees :
      (r : Role) (i : ℕ) (k : Session) (g : Text) (now : ℕ) (s : Live W)
      → session_at i s.sessions ≡ some k
      → k.role ≡ r
      → Agrees s
      → Agrees (claim_as deps r i k g now s)
  unfolding claim_as fail
  claim_as-Agrees unclaimed i k g now s at idle a = elim (Bool-cases (deps.exists g s.world)) [
    | inl e ↦ rw (claim_as, e) (claim_lock-Agrees i k g now s at idle a)
    | inr e ↦ rw (claim_as, e) a
  ]
  claim_as-Agrees (group f) i k g now s at idle a = a
  claim_as-Agrees admin i k g now s at idle a = a

  subscribe_as-Agrees :
      (r : Role) (i : ℕ) (k : Session) (s : Live W)
      → session_at i s.sessions ≡ some k
      → k.role ≡ r
      → Agrees s
      → Agrees (subscribe_as deps r i k s)
  unfolding subscribe_as fail
  subscribe_as-Agrees unclaimed i k s at idle a =
      away-Agreed s.lock s.sessions i k (record k { role = admin }) at
        (λ g e. let clash : unclaimed ≡ group g = sym idle ∙ e in cc) (λ g e. cc) a
  subscribe_as-Agrees (group f) i k s at idle a = a
  subscribe_as-Agrees admin i k s at idle a = a

  pass_on-Agrees :
      (r : Role) (i : ℕ) (ev : ClientEvent) (now : ℕ) (s : Live W)
      → Agrees s
      → Agrees (pass_on deps r i ev now s)
  unfolding pass_on fail
  pass_on-Agrees unclaimed i ev now s a = a
  pass_on-Agrees (group g) i ev now s a = a
  pass_on-Agrees admin i ev now s a = a

  handle-Agrees :
      (i : ℕ) (k : Session) (ev : ClientEvent) (now : ℕ) (s : Live W)
      → session_at i s.sessions ≡ some k
      → Agrees s
      → Agrees (handle deps i k ev now s)
  unfolding handle
  handle-Agrees i k (group_claim g) now s at a = claim_as-Agrees k.role i k g now s at refl a
  handle-Agrees i k admin_subscribe now s at a = subscribe_as-Agrees k.role i k s at refl a
  handle-Agrees i k (message_send f t b) now s at a = pass_on-Agrees k.role i _ now s a
  handle-Agrees i k (tile_presence n o) now s at a = pass_on-Agrees k.role i _ now s a
  handle-Agrees i k (chat_read n p) now s at a = pass_on-Agrees k.role i _ now s a
  handle-Agrees i k (tile_autoreply n r) now s at a = pass_on-Agrees k.role i _ now s a

  -- The lock that a live session of a group closes is its own.
  pub release-own :
      (g : Text) (i : ℕ) (h : Held) (lock : LockTable)
      → holder g lock ≡ some h
      → h.owner ≡ i
      → (release g i lock).1 ≡ keep (λ e. not (text_eq e.0 g)) lock
  unfolding release
  release-own g i h lock e own =
      let mine : (h.owner == i) ≡ true = ground arith in rw (release, e, mine) refl

  close_role-Agrees :
      (r : Role) (i : ℕ) (k : Session) (s : Live W)
      → session_at i s.sessions ≡ some k
      → k.role ≡ r
      → k.closed ≡ false
      → Agrees s
      → Agrees (close_role deps i r s)
  unfolding close_role
  close_role-Agrees unclaimed i k s at idle live a =
      away-Agreed s.lock s.sessions i k (record { role = unclaimed; closed = true }) at
        (λ g e. let clash : unclaimed ≡ group g = sym idle ∙ e in cc) (λ g e. cc) a
  close_role-Agrees admin i k s at idle live a =
      away-Agreed s.lock s.sessions i k (record { role = admin; closed = true }) at
        (λ g e. let clash : admin ≡ group g = sym idle ∙ e in cc) (λ g e. cc) a
  close_role-Agrees (group g) i k s at mine live a =
      let (h, e, own) = a.roles i k g at mine live in
      rw (release-own g i h s.lock e own) (released-Agreed s.lock s.sessions i k g at mine live a)

  close-Agrees :
      (i : ℕ) (k : Session) (s : Live W)
      → session_at i s.sessions ≡ some k
      → Agrees s
      → Agrees (close deps i k s)
  unfolding close
  close-Agrees i k s at a = elim (Bool-cases k.closed) [
    | inl shut ↦ rw (close, shut) a
    | inr live ↦ rw (close, live) (close_role-Agrees k.role i k s at refl live a)
  ]

  with_session-Agrees :
      (i : ℕ) (f : Session → Live W → Live W) (s : Live W)
      → ((k : Session) → session_at i s.sessions ≡ some k → Agrees (f k s))
      → Agrees s
      → Agrees (with_session deps i f s)
  unfolding with_session
  with_session-Agrees i f s h a = elim (Option-cases (session_at i s.sessions)) [
    | inl e ↦ rw (with_session, e) a
    | inr (k, e) ↦ rw (with_session, e) (h k e)
  ]

  pub step-Agrees : (e : SocketEvent W) (s : Live W) → Agrees s → Agrees (step deps e s)
  unfolding step disconnect
  step-Agrees connects s a = connects-Agreed s.lock s.sessions a
  step-Agrees (receives i ev now) s a =
      with_session-Agrees i (λ k. handle deps i k ev now) s
        (λ k at. handle-Agrees i k ev now s at a) a
  step-Agrees (closes i) s a =
      with_session-Agrees i (close deps i) s (λ k at. close-Agrees i k s at a) a
  step-Agrees (disconnects i) s a =
      with_session-Agrees i (disconnect deps i) s (λ k at. close-Agrees i k s at a) a
  step-Agrees (elsewhere w) s a = a

  abbrev pub boot : W → Live W
  boot w = record { lock = []; sessions = []; world = w }

  pub boot-Agrees : (w : W) → Agrees (boot w)
  unfolding holder session_at
  boot-Agrees w = record { holders = λ g h e. cc; roles = λ i k g e. cc }

  run_from-Agrees : (es : List (SocketEvent W)) (s : Live W) → Agrees s → Agrees (run deps es s)
  unfolding run
  run_from-Agrees [] s a = a
  run_from-Agrees (e ∷ es) s a = run_from-Agrees es (step deps e s) (step-Agrees e s a)

  pub record Exclusive (s : Live W) : Type 0 where
    pub agrees : Agrees s
    pub single :
        (g : Text) (i j : ℕ) (k q : Session)
        → session_at i s.sessions ≡ some k
        → session_at j s.sessions ≡ some q
        → k.role ≡ group g
        → q.role ≡ group g
        → k.closed ≡ false
        → q.closed ≡ false
        → i ≡ j

  Agrees-single :
      (s : Live W) (a : Agrees s) (g : Text) (i j : ℕ) (k q : Session)
      → session_at i s.sessions ≡ some k
      → session_at j s.sessions ≡ some q
      → k.role ≡ group g
      → q.role ≡ group g
      → k.closed ≡ false
      → q.closed ≡ false
      → i ≡ j
  Agrees-single s a g i j k q at there role role' live live' =
      let (h, e, own) = a.roles i k g at role live in
      let (h', e', own') = a.roles j q g there role' live' in
      let same : h ≡ h' = let both : some h ≡ some h' = sym e ∙ e' in ground arith in
      sym own ∙ ap (λ (x : Held). x.owner) same ∙ own'

  -- Whatever happens to the sockets from the boot on, the holder of each lock is a session with the
  -- role of that group, each session of a group that is not closed holds the group's lock, and so
  -- two sessions of one group that are not closed are one session.
  pub one_session_per_group : (w : W) (es : List (SocketEvent W)) → Exclusive (run deps es (boot w))
  one_session_per_group w es =
      let a = run_from-Agrees es (boot w) (boot-Agrees w) in
      record { agrees = a; single = Agrees-single (run deps es (boot w)) a }

  -- Where locks and roles agree, a session of a group that closes leaves the group free: the next claim of it is granted.
  pub close-frees :
      (i : ℕ) (k : Session) (g : Text) (now : ℕ) (s : Live W)
      → Agrees s
      → session_at i s.sessions ≡ some k
      → k.role ≡ group g
      → k.closed ≡ false
      → (next : ℕ)
      → ((claim g next now (step deps (closes i) s).lock).0 ≡ (true, now))
        × (holder g (step deps (closes i) s).lock ≡ none)
  unfolding step with_session close close_role claim
  close-frees i k g now s a at role live next =
      let (h, e, own) = a.roles i k g at role live in
      let free : holder g (step deps (closes i) s).lock ≡ none =
        rw
          (
            step,
            with_session,
            at,
            close,
            live,
            role,
            close_role,
            release-own g i h s.lock e own,
            holder-removed g g s.lock,
            text_eq_refl g,
          )
          refl in
      (rw (claim, free) refl, free)
