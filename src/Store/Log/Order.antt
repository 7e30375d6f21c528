-- ===== src/Store/Log/Order.antt =====
-- Lists in descending order of a number: what sorting two of them together gives, and its start.
use comdove_fake_backend.Base.{
  zero, ◌∙◌, suc, ap, false, ◌++◌, take, sort_by, All, ◌≤◌, if◌then◌else◌, Bool-cases, insert_by, ℕ,
  ◌≡◌, refl, inl, inr, Bool, List, [], ◌∷◌, arith,
}
use comdove_fake_backend.Store.Log.{newer}

module _ {ℓ} {A : Type ℓ} (time : A → ℕ) where
  abbrev later : A → A → Bool
  later = newer time

  -- Two lists merged: the first goes first where the times are equal.
  unfoldable merge : List A → List A → List A
  merge [] t = t
  merge (x ∷ s) [] = x ∷ s
  merge (x ∷ s) (y ∷ t) = if later y x then y ∷ merge (x ∷ s) t else x ∷ merge s (y ∷ t)

  merge-nil : (s : List A) → merge s [] ≡ s
  unfolding merge
  merge-nil [] = refl
  merge-nil (x ∷ s) = refl

  -- An insertion before the merge, and after it.
  insert_by-merge :
      (x : A) (s t : List A) → insert_by later x (merge s t) ≡ merge (insert_by later x s) t
  unfolding merge insert_by
  insert_by-merge x [] [] = refl
  insert_by-merge x [] (b ∷ t) = elim (Bool-cases (later b x)) [
    | inl e ↦ rw (e, insert_by-merge x [] t) refl
    | inr e ↦ rw e refl
  ]
  insert_by-merge x (a ∷ s) [] = rw (merge-nil (insert_by later x (a ∷ s))) refl
  insert_by-merge x (a ∷ s) (b ∷ t) =
      ground (arith, insert_by-merge x s (b ∷ t), insert_by-merge x (a ∷ s) t)

  sort_by-append :
      (s t : List A) → sort_by later (s ++ t) ≡ merge (sort_by later s) (sort_by later t)
  unfolding merge sort_by
  sort_by-append [] t = refl
  sort_by-append (x ∷ s) t =
      ap (insert_by later x) (sort_by-append s t)
      ∙ insert_by-merge x (sort_by later s) (sort_by later t)

  -- No element is later than one before it.
  abbrev pub Descending : List A → Type 0
  Descending [] = Unit
  Descending (x ∷ s) = All (λ y. time y ≤ time x) s × Descending s

  All-weaken_le : {m n : ℕ} (s : List A) → m ≤ n → All (λ y. time y ≤ m) s → All (λ y. time y ≤ n) s
  All-weaken_le [] e h = tt
  All-weaken_le (x ∷ s) e h = (omega (arith, e, h.0), All-weaken_le s e h.1)

  insert_by-All :
      (n : ℕ) (x : A) (s : List A)
      → time x ≤ n
      → All (λ y. time y ≤ n) s
      → All (λ y. time y ≤ n) (insert_by later x s)
  unfolding insert_by
  insert_by-All n x [] e h = (e, tt)
  insert_by-All n x (y ∷ s) e h = elim (Bool-cases (later y x)) [
    | inl on ↦ rw (insert_by, on) (h.0, insert_by-All n x s e h.1)
    | inr off ↦ rw (insert_by, off) (e, h)
  ]

  insert_by-Descending : (x : A) (s : List A) → Descending s → Descending (insert_by later x s)
  unfolding insert_by
  insert_by-Descending x [] h = (tt, tt)
  insert_by-Descending x (y ∷ s) h = elim (Bool-cases (later y x)) [
    | inl on ↦
        rw (insert_by, on)
          (insert_by-All (time y) x s (ground arith) h.0, insert_by-Descending x s h.1)
    | inr off ↦
        let le : time y ≤ time x = ground arith in
        rw (insert_by, off) ((le, All-weaken_le s le h.0), h)
  ]

  pub sort_by-Descending : (s : List A) → Descending (sort_by later s)
  unfolding sort_by
  sort_by-Descending [] = tt
  sort_by-Descending (x ∷ s) = insert_by-Descending x (sort_by later s) (sort_by-Descending s)

  -- A list in order is its own sorting.
  sort_by_sorted : (s : List A) → Descending s → sort_by later s ≡ s
  unfolding sort_by insert_by
  sort_by_sorted [] h = refl
  sort_by_sorted (x ∷ []) h = refl
  sort_by_sorted (x ∷ y ∷ s) h =
      let off : later y x ≡ false = ground arith in
      rw (sort_by, insert_by, sort_by_sorted (y ∷ s) h.1, off) refl

  take-All : (P : A → Type 0) (n : ℕ) (s : List A) → All P s → All P (take n s)
  take-All P zero s h = tt
  take-All P (suc n) [] h = tt
  take-All P (suc n) (x ∷ s) h = (h.0, take-All P n s h.1)

  pub take-Descending : (n : ℕ) (s : List A) → Descending s → Descending (take n s)
  take-Descending zero s h = tt
  take-Descending (suc n) [] h = tt
  take-Descending (suc n) (x ∷ s) h = (take-All _ n s h.0, take-Descending n s h.1)

  take-take : (n i : ℕ) (s : List A) → n ≤ i → take n (take i s) ≡ take n s
  take-take zero i s h = refl
  take-take (suc n) zero s h = ground arith
  take-take (suc n) (suc i) [] h = refl
  take-take (suc n) (suc i) (x ∷ s) h = ap (λ u. x ∷ u) (take-take n i s (omega arith))

  -- The start of a merge needs only the starts of the two lists.
  take-merge :
      (n i j : ℕ) (s t : List A)
      → n ≤ i
      → n ≤ j
      → take n (merge (take i s) (take j t)) ≡ take n (merge s t)
  unfolding merge
  take-merge zero i j s t p q = refl
  take-merge (suc n) zero j s t p q = ground arith
  take-merge (suc n) (suc i) zero s t p q = ground arith
  take-merge (suc n) (suc i) (suc j) [] [] p q = refl
  take-merge (suc n) (suc i) (suc j) [] (y ∷ t) p q =
      ap (λ u. y ∷ u) (take-take n j t (omega arith))
  take-merge (suc n) (suc i) (suc j) (x ∷ s) [] p q =
      ap (λ u. x ∷ u) (take-take n i s (omega arith))
  take-merge (suc n) (suc i) (suc j) (x ∷ s) (y ∷ t) p q = elim (Bool-cases (later y x)) [
    | inl on ↦
        rw (merge, on)
          (ap (λ u. y ∷ u) (take-merge n (suc i) j (x ∷ s) t (omega arith) (omega arith)))
    | inr off ↦
        rw (merge, off)
          (ap (λ u. x ∷ u) (take-merge n i (suc j) s (y ∷ t) (omega arith) (omega arith)))
  ]

  -- The first `n` of two lists sorted together, of which only the first `n` of each are needed.
  pub take_sorted :
      (n : ℕ) (s t : List A)
      → take n (sort_by later (take n (sort_by later s) ++ take n (sort_by later t)))
        ≡ take n (sort_by later (s ++ t))
  take_sorted n s t =
      rw
        (
          sort_by-append (take n (sort_by later s)) (take n (sort_by later t)),
          sort_by-append s t,
          sort_by_sorted (take n (sort_by later s))
              (take-Descending n (sort_by later s) (sort_by-Descending s)),
          sort_by_sorted (take n (sort_by later t))
              (take-Descending n (sort_by later t) (sort_by-Descending t)),
        )
        (take-merge n n n (sort_by later s) (sort_by later t) (omega arith) (omega arith))
