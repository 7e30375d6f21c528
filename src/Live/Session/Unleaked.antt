-- ===== src/Live/Session/Unleaked.antt =====
-- Setting one session keeps the locks of ws/lock.ts with sessions of ws/session.ts that are not
-- closed.
use comdove_fake_backend.Base.{
  ◌==◌, Bool-cases, keep, Text, text_eq, text_eq_refl, ℕ, ◌≡◌, refl, sym, ◌∙◌, ◌≢◌, ◌⊎◌, inl, inr,
  true, false, not, none, some, List, [], ◌∷◌, ◌++◌, arith,
}
use comdove_fake_backend.Live.Lock.{Held, LockTable, holder, holder-added, holder-removed}
use comdove_fake_backend.Live.Session.{group, Session, session_at, set_session}
use comdove_fake_backend.Live.Session.Exclusive.{session_at-set, Agreed}

-- The holder of each lock is a session that is not closed.
pub record Unleaked (lock : LockTable) (ss : List Session) : Type 0 where
  pub held :
      (g : Text) (h : Held)
      → holder g lock ≡ some h
      → (k : Session) × (session_at h.owner ss ≡ some k) × (k.closed ≡ false)

-- One session is set, to one that is not closed where it holds a lock afterwards.
pub set-Unleaked :
    (lock lock' : LockTable) (ss : List Session) (i : ℕ) (k x : Session)
    → session_at i ss ≡ some k
    → ((g : Text) (h : Held)
        → holder g lock' ≡ some h
        → ((h.owner ≡ i) × (x.closed ≡ false))
          ⊎ (((i == h.owner) ≡ false) × (holder g lock ≡ some h)))
    → Unleaked lock ss
    → Unleaked lock' (set_session i x ss)
set-Unleaked lock lock' ss i k x at c u = record {
  held = λ g h e. elim (c g h e) [
    | inl (own, live) ↦ (x, rw (own, session_at-set i i k x ss at) (ground arith), live)
    | inr (other, old) ↦
        let (q, there, live) = u.held g h old in
        (q, rw (session_at-set i h.owner k x ss at, other) there, live)
  ];
}

-- A session that is in no group holds no lock.
pub not_holding :
    (lock : LockTable) (ss : List Session) (i : ℕ) (k : Session) (g : Text) (h : Held)
    → session_at i ss ≡ some k
    → ((f : Text) → k.role ≢ group f)
    → holder g lock ≡ some h
    → Agreed lock ss
    → (i == h.owner) ≡ false
not_holding lock ss i k g h at none_of e a = elim (Bool-cases (i == h.owner)) [
  | inr other ↦ other
  | inl same ↦
      let own : i ≡ h.owner = ground arith in
      let (q, there, role) = a.holders g h e in
      let both : some q ≡ some k = sym there ∙ rw (← own) at in
      let eq : q ≡ k = ground arith in absurd (none_of g (rw (← eq) role))
]

-- A session that is not closed keeps its lock, or has none, in another role.
pub live-Unleaked :
    (lock : LockTable) (ss : List Session) (i : ℕ) (k x : Session)
    → session_at i ss ≡ some k
    → x.closed ≡ false
    → Unleaked lock ss
    → Unleaked lock (set_session i x ss)
live-Unleaked lock ss i k x at live u =
    set-Unleaked lock lock ss i k x at
      (λ g h e. elim (Bool-cases (i == h.owner)) [
        | inl same ↦ let own : h.owner ≡ i = ground arith in inl (own, live)
        | inr other ↦ inr (other, e)
      ])
      u

pub claimed-Unleaked :
    (lock : LockTable) (ss : List Session) (i : ℕ) (k x : Session) (g : Text) (now : ℕ)
    → session_at i ss ≡ some k
    → x.closed ≡ false
    → holder g lock ≡ none
    → Unleaked lock ss
    → Unleaked (lock ++ (g, record { owner = i; since = now }) ∷ []) (set_session i x ss)
claimed-Unleaked lock ss i k x g now at live free u =
    set-Unleaked lock _ ss i k x at
      (λ f h e. elim (Bool-cases (text_eq g f)) [
        | inl same ↦
            let mine : some h ≡ some (record { owner = i; since = now }) =
              sym e
              ∙ holder-added g f (record { owner = i; since = now }) lock free
              ∙ rw same refl in
            let own : h.owner ≡ i = ground arith in inl (own, live)
        | inr apart ↦
            let old : holder f lock ≡ some h =
              rw (← e, holder-added g f (record { owner = i; since = now }) lock free, apart)
                refl in
            elim (Bool-cases (i == h.owner)) [
              | inl same ↦ let own : h.owner ≡ i = ground arith in inl (own, live)
              | inr other ↦ inr (other, old)
            ]
      ])
      u

pub released-Unleaked :
    (lock : LockTable) (ss : List Session) (i : ℕ) (k x : Session) (g : Text)
    → session_at i ss ≡ some k
    → k.role ≡ group g
    → Agreed lock ss
    → Unleaked lock ss
    → Unleaked (keep (λ e. not (text_eq e.0 g)) lock) (set_session i x ss)
released-Unleaked lock ss i k x g at mine a u =
    set-Unleaked lock (keep (λ e. not (text_eq e.0 g)) lock) ss i k x at
      (λ f h e. elim (Bool-cases (text_eq g f)) [
        | inl same ↦ let gone : none ≡ some h = rw (← e, holder-removed g f lock, same) refl in cc
        | inr apart ↦
            let old : holder f lock ≡ some h = rw (← e, holder-removed g f lock, apart) refl in
            elim (Bool-cases (i == h.owner)) [
              | inr other ↦ inr (other, old)
              | inl same ↦
                  let own : i ≡ h.owner = ground arith in
                  let (q, there, role) = a.holders f h old in
                  let both : some q ≡ some k = sym there ∙ rw (← own) at in
                  let eq : q ≡ k = ground arith in
                  let clash : group g ≡ group f = sym mine ∙ rw (← eq) role in
                  let gf : g ≡ f = cc in let on : text_eq g f ≡ true = rw gf (text_eq_refl f) in cc
            ]
      ])
      u
