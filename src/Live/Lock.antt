-- ===== src/Live/Lock.antt =====
-- ws/lock.ts. A session, the owner of a lock, is its number.
use comdove_fake_backend.Base.{
  ◌==◌, if◌then◌else◌, Bool-cases, is_some, keep, Text, text_eq, text_eq_refl, text_eq_sound, ℕ,
  ◌≡◌, refl, sym, ◌∙◌, inl, inr, Bool, true, false, not, Option, none, some, List, [], ◌∷◌, ◌++◌,
  arith,
}

pub record Held : Type 0 where
  pub owner : ℕ
  pub since : ℕ

-- The `Map` of locks, in insertion order.
abbrev pub LockTable : Type 0
LockTable = List (Text × Held)

-- `locks.get(groupId)`
unfoldable pub holder : Text → LockTable → Option Held
holder g [] = none
holder g ((k, h) ∷ t) = if text_eq k g then some h else holder g t

unfoldable pub is_locked : Text → LockTable → Bool
unfolding holder
is_locked g t = is_some (holder g t)

unfoldable pub locked_since : Text → LockTable → Option ℕ
unfolding holder
locked_since g t = elim (holder g t) [ none ↦ none | some h ↦ some h.since ]

-- The result is whether the lock is taken, with the time that it is held since.
unfoldable pub claim : Text → (owner now : ℕ) → LockTable → (Bool × ℕ) × LockTable
unfolding holder
claim g owner now t = elim (holder g t) [
  | some h ↦ ((false, h.since), t)
  | none ↦ ((true, now), t ++ (g, record { owner = owner; since = now }) ∷ [])
]

unfoldable pub release : Text → (owner : ℕ) → LockTable → Bool × LockTable
unfolding holder
release g owner t = elim (holder g t) [
  | none ↦ (false, t)
  | some h ↦ if h.owner == owner then (true, keep (λ e. not (text_eq e.0 g)) t) else (false, t)
]

pub holder-added :
    (g k : Text) (h : Held) (t : LockTable)
    → holder g t ≡ none
    → holder k (t ++ (g, h) ∷ []) ≡ (if text_eq g k then some h else holder k t)
unfolding holder
holder-added g k h [] e = refl
holder-added g k h ((j, x) ∷ t) e = elim (Bool-cases (text_eq j k)) [
  | inr off ↦ rw (holder, off) (holder-added g k h t (ground arith))
  | inl on ↦ elim (Bool-cases (text_eq g k)) [
    | inr off ↦ rw (holder, on, off) refl
    | inl same ↦
        let jg : j ≡ g = text_eq_sound j k on ∙ sym (text_eq_sound g k same) in
        let self : text_eq j g ≡ true = rw jg (text_eq_refl g) in ground arith
  ]
]

pub holder-removed :
    (g k : Text) (t : LockTable)
    → holder k (keep (λ e. not (text_eq e.0 g)) t) ≡ (if text_eq g k then none else holder k t)
unfolding holder
holder-removed g k [] = ground arith
holder-removed g k ((j, x) ∷ t) = elim (Bool-cases (text_eq j g)) [
  | inl on ↦
      let jg : j ≡ g = text_eq_sound j g on in
      rw (holder, on, jg, holder-removed g k t) (ground arith)
  | inr off ↦ elim (Bool-cases (text_eq g k)) [
    | inl same ↦
        let gk : g ≡ k = text_eq_sound g k same in
        let away : text_eq j k ≡ false = rw (← gk) off in
        rw (holder, off, away, holder-removed g k t, same) refl
    | inr other ↦ rw (holder, off, holder-removed g k t, other) refl
  ]
]
