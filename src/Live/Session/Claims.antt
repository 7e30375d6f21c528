-- ===== src/Live/Session/Claims.antt =====
-- Taking and releasing a group's lock keeps the locks of ws/lock.ts and the roles of ws/session.ts
-- in agreement, so that no two sessions hold one group.
use comdove_fake_backend.Base.{
  ◌==◌, Bool-cases, keep, Text, text_eq, text_eq_refl, text_eq_sound, ℕ, ◌≡◌, refl, sym, ap, ◌∙◌,
  inl, inr, true, false, not, none, some, List, [], ◌∷◌, ◌++◌, arith,
}
use comdove_fake_backend.Live.Lock.{LockTable, holder, holder-added, holder-removed}
use comdove_fake_backend.Live.Session.{unclaimed, group, Session, session_at, set_session}
use comdove_fake_backend.Live.Session.Exclusive.{session_at-set, Agreed}

-- A session takes the role of a group whose lock it has just taken.
pub claimed-Agreed :
    (lock : LockTable) (ss : List Session) (i : ℕ) (k : Session) (g : Text) (now : ℕ)
    → session_at i ss ≡ some k
    → k.role ≡ unclaimed
    → holder g lock ≡ none
    → Agreed lock ss
    → Agreed
        (lock ++ (g, record { owner = i; since = now }) ∷ [])
        (set_session i (record k { role = group g }) ss)
claimed-Agreed lock ss i k g now at idle free a = record {
  holders = λ f h e. elim (Bool-cases (text_eq g f)) [
    | inl same ↦
        let gf : g ≡ f = text_eq_sound g f same in
        let mine : some h ≡ some (record { owner = i; since = now }) =
          sym e ∙ holder-added g f (record { owner = i; since = now }) lock free ∙ rw same refl in
        let own : h.owner ≡ i = ground arith in
        (
          record k { role = group g },
          rw (own, session_at-set i i k (record k { role = group g }) ss at) (ground arith),
          ap group gf,
        )
    | inr other ↦
        let old : holder f lock ≡ some h =
          rw (← e, holder-added g f (record { owner = i; since = now }) lock free, other) refl in
        let (q, there, role) = a.holders f h old in
        elim (Bool-cases (i == h.owner)) [
          | inl same ↦
              let own : i ≡ h.owner = ground arith in
              let both : some q ≡ some k = sym there ∙ rw (← own) at in
              let eq : q ≡ k = ground arith in
              let clash : unclaimed ≡ group f = sym idle ∙ rw (← eq) role in cc
          | inr apart ↦ (
            q,
            rw (session_at-set i h.owner k (record k { role = group g }) ss at, apart) there,
            role,
          )
        ]
  ];
  roles = λ j q f there role live. elim (Bool-cases (i == j)) [
    | inl same ↦
        let new : session_at j (set_session i (record k { role = group g }) ss)
            ≡ some (record k { role = group g }) =
          rw (session_at-set i j k (record k { role = group g }) ss at, same) refl in
        let eq : record k { role = group g } ≡ q = ground arith in
        let roles_same : group g ≡ group f = ap (λ (x : Session). x.role) eq ∙ role in
        let gf : g ≡ f = cc in
        (
          record { owner = i; since = now },
          rw (← gf, holder-added g g (record { owner = i; since = now }) lock free, text_eq_refl g)
              refl,
          ground arith,
        )
    | inr other ↦
        let old : session_at j ss ≡ some q =
          rw (← there, session_at-set i j k (record k { role = group g }) ss at, other) refl in
        let (h, e, own) = a.roles j q f old role live in
        elim (Bool-cases (text_eq g f)) [
          | inl same ↦
              let gf : g ≡ f = text_eq_sound g f same in
              let taken : none ≡ some h = sym free ∙ rw gf e in cc
          | inr apart ↦
              (h, rw (holder-added g f (record { owner = i; since = now }) lock free, apart) e, own)
        ]
  ];
}

-- A session of a group closes and its lock is removed.
pub released-Agreed :
    (lock : LockTable) (ss : List Session) (i : ℕ) (k : Session) (g : Text)
    → session_at i ss ≡ some k
    → k.role ≡ group g
    → k.closed ≡ false
    → Agreed lock ss
    → Agreed
        (keep (λ e. not (text_eq e.0 g)) lock)
        (set_session i (record { role = group g; closed = true }) ss)
released-Agreed lock ss i k g at mine unclosed a = record {
  holders = λ f h e. elim (Bool-cases (text_eq g f)) [
    | inl same ↦ let gone : none ≡ some h = rw (← e, holder-removed g f lock, same) refl in cc
    | inr apart ↦
        let old : holder f lock ≡ some h = rw (← e, holder-removed g f lock, apart) refl in
        let (q, there, role) = a.holders f h old in
        elim (Bool-cases (i == h.owner)) [
          | inl same ↦
              let own : i ≡ h.owner = ground arith in
              let both : some q ≡ some k = sym there ∙ rw (← own) at in
              let eq : q ≡ k = ground arith in
              let clash : group g ≡ group f = sym mine ∙ rw (← eq) role in
              let gf : g ≡ f = cc in let on : text_eq g f ≡ true = rw gf (text_eq_refl f) in cc
          | inr other ↦ (
            q,
            rw (session_at-set i h.owner k (record { role = group g; closed = true }) ss at, other)
                there,
            role,
          )
        ]
  ];
  roles = λ j q f there role live. elim (Bool-cases (i == j)) [
    | inl same ↦
        let new : session_at j (set_session i (record { role = group g; closed = true }) ss)
            ≡ some (record { role = group g; closed = true }) =
          rw (session_at-set i j k (record { role = group g; closed = true }) ss at, same) refl in
        let eq : record { role = group g; closed = true } ≡ q = ground arith in
        let shut : true ≡ false = ap (λ (x : Session). x.closed) eq ∙ live in cc
    | inr other ↦
        let old : session_at j ss ≡ some q =
          rw (← there, session_at-set i j k (record { role = group g; closed = true }) ss at, other)
            refl in
        let (h, e, own) = a.roles j q f old role live in
        elim (Bool-cases (text_eq g f)) [
          | inl same ↦
              let gf : g ≡ f = text_eq_sound g f same in
              let (h', e', own') = a.roles i k g at mine unclosed in
              let one : some h ≡ some h' = sym e ∙ rw (← gf) e' in
              let eq : h ≡ h' = ground arith in
              let clash : i ≡ j = sym own' ∙ rw (← eq) own in absurd (ground arith)
          | inr apart ↦ (h, rw (holder-removed g f lock, apart) e, own)
        ]
  ];
}
