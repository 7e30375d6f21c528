-- ===== src/Live/Session/Exclusive.antt =====
-- The locks of ws/lock.ts and the roles of ws/session.ts agree, whatever leaves the groups alone.
use comdove_fake_backend.Base.{
  ◌==◌, if◌then◌else◌, Bool-cases, Text, ℕ, zero, suc, ◌≡◌, refl, sym, ◌∙◌, ◌≢◌, ◌⊎◌, inl, inr,
  false, some, List, [], ◌∷◌, ◌++◌, arith,
}
use comdove_fake_backend.Live.Lock.{Held, LockTable, holder}
use comdove_fake_backend.Live.Session.{unclaimed, group, Session, session_at, set_session, opened}

pub session_at-set :
    (i j : ℕ) (k x : Session) (ss : List Session)
    → session_at i ss ≡ some k
    → session_at j (set_session i x ss) ≡ (if i == j then some x else session_at j ss)
unfolding session_at set_session
session_at-set i j k x [] h = cc
session_at-set zero zero k x (s ∷ ss) h = refl
session_at-set zero (suc j) k x (s ∷ ss) h = ground arith
session_at-set (suc i) zero k x (s ∷ ss) h = ground arith
session_at-set (suc i) (suc j) k x (s ∷ ss) h =
    let rest = session_at-set i j k x ss h in rw (session_at, set_session, rest) (ground arith)

-- A new session is unclaimed, and the others are where they were.
pub session_at-opened :
    (i : ℕ) (k : Session) (ss : List Session)
    → session_at i (ss ++ opened ∷ []) ≡ some k
    → (session_at i ss ≡ some k) ⊎ (k.role ≡ unclaimed)
unfolding session_at
session_at-opened zero k [] h = let same : opened ≡ k = ground arith in inr (rw (← same) refl)
session_at-opened (suc i) k [] h = cc
session_at-opened zero k (s ∷ ss) h = inl h
session_at-opened (suc i) k (s ∷ ss) h = session_at-opened i k ss h

pub session_at-kept :
    (i : ℕ) (k : Session) (ss : List Session)
    → session_at i ss ≡ some k
    → session_at i (ss ++ opened ∷ []) ≡ some k
unfolding session_at
session_at-kept i k [] h = cc
session_at-kept zero k (s ∷ ss) h = h
session_at-kept (suc i) k (s ∷ ss) h = session_at-kept i k ss h

-- The holder of a group's lock is a session with the role of that group, and every session with
-- that role that is not closed is the holder.
pub record Agreed (lock : LockTable) (ss : List Session) : Type 0 where
  pub holders :
      (g : Text) (h : Held)
      → holder g lock ≡ some h
      → (k : Session) × (session_at h.owner ss ≡ some k) × (k.role ≡ group g)
  pub roles :
      (i : ℕ) (k : Session) (g : Text)
      → session_at i ss ≡ some k
      → k.role ≡ group g
      → k.closed ≡ false
      → (h : Held) × (holder g lock ≡ some h) × (h.owner ≡ i)

pub connects-Agreed :
    (lock : LockTable) (ss : List Session) → Agreed lock ss → Agreed lock (ss ++ opened ∷ [])
connects-Agreed lock ss a = record {
  holders =
      λ g h e. let (k, at, role) = a.holders g h e in (k, session_at-kept h.owner k ss at, role);
  roles = λ i k g at role live. elim (session_at-opened i k ss at) [
    | inl old ↦ a.roles i k g old role live
    | inr none_yet ↦ let clash : unclaimed ≡ group g = sym none_yet ∙ role in cc
  ];
}

-- A session that is not in a group takes another role that is no group, or closes.
pub away-Agreed :
    (lock : LockTable) (ss : List Session) (i : ℕ) (k x : Session)
    → session_at i ss ≡ some k
    → ((g : Text) → k.role ≢ group g)
    → ((g : Text) → x.role ≢ group g)
    → Agreed lock ss
    → Agreed lock (set_session i x ss)
away-Agreed lock ss i k x at before after a = record {
  holders = λ g h e.
      let (q, there, role) = a.holders g h e in
      elim (Bool-cases (i == h.owner)) [
        | inl same ↦
            let own : i ≡ h.owner = ground arith in
            let both : some q ≡ some k = sym there ∙ rw (← own) at in
            let eq : q ≡ k = ground arith in absurd (before g (rw (← eq) role))
        | inr other ↦ (q, rw (session_at-set i h.owner k x ss at, other) there, role)
      ];
  roles = λ j q g there role live. elim (Bool-cases (i == j)) [
    | inl same ↦
        let new : session_at j (set_session i x ss) ≡ some x =
          rw (session_at-set i j k x ss at, same) refl in
        let eq : x ≡ q = ground arith in absurd (after g (rw eq role))
    | inr other ↦
        let old : session_at j ss ≡ some q =
          rw (← there, session_at-set i j k x ss at, other) refl in
        a.roles j q g old role live
  ];
}
