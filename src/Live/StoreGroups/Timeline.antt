-- ===== src/Live/StoreGroups/Timeline.antt =====
-- The order of `history` of core/messages.ts, and of what ws/store-groups.ts leaves of it.
use comdove_fake_backend.Base.{
  Bool-cases, keep, All, All-keep, Text, text_eq, insert_by, sort_by, ℕ, ◌≤◌, ◌≡◌, inl, inr, Bool,
  true, false, List, [], ◌∷◌, ◌++◌, arith,
}
use comdove_fake_backend.Contract.Types.{StoredMessage}
use comdove_fake_backend.Store.Tables.{Db}
use comdove_fake_backend.Store.Messages.{by_time, all_messages, history}
use comdove_fake_backend.Live.StoreGroups.{past_of}

-- No message is earlier than one before it.
abbrev pub Ascending : List StoredMessage → Type 0
Ascending [] = Unit
Ascending (m ∷ ms) = All (λ x. m.created_at ≤ x.created_at) ms × Ascending ms

insert_by-since :
    (n : ℕ) (m : StoredMessage) (ms : List StoredMessage)
    → n ≤ m.created_at
    → All (λ x. n ≤ x.created_at) ms
    → All (λ x. n ≤ x.created_at) (insert_by by_time m ms)
unfolding insert_by
insert_by-since n m [] e h = (e, tt)
insert_by-since n m (x ∷ ms) e h = elim (Bool-cases (by_time x m)) [
  | inl on ↦ rw (insert_by, on) (h.0, insert_by-since n m ms e h.1)
  | inr off ↦ rw (insert_by, off) (e, h)
]

since-later :
    (m n : ℕ) (ms : List StoredMessage)
    → m ≤ n
    → All (λ x. n ≤ x.created_at) ms
    → All (λ x. m ≤ x.created_at) ms
since-later m n [] e h = tt
since-later m n (x ∷ ms) e h = (omega (arith, e, h.0), since-later m n ms e h.1)

before_in_time : (x m : StoredMessage) → by_time x m ≡ true → x.created_at ≤ m.created_at
before_in_time x m h = ground arith

after_in_time : (x m : StoredMessage) → by_time x m ≡ false → m.created_at ≤ x.created_at
after_in_time x m h = ground arith

insert_by-Ascending :
    (m : StoredMessage) (ms : List StoredMessage)
    → Ascending ms
    → Ascending (insert_by by_time m ms)
unfolding insert_by
insert_by-Ascending m [] h = (tt, tt)
insert_by-Ascending m (x ∷ ms) h = elim (Bool-cases (by_time x m)) [
  | inl on ↦
      rw (insert_by, on)
        (
          insert_by-since x.created_at m ms (before_in_time x m on) h.0,
          insert_by-Ascending m ms h.1,
        )
  | inr off ↦
      let le = after_in_time x m off in
      rw (insert_by, off) ((le, since-later m.created_at x.created_at ms le h.0), h)
]

sort_by-Ascending : (ms : List StoredMessage) → Ascending (sort_by by_time ms)
unfolding sort_by
sort_by-Ascending [] = tt
sort_by-Ascending (m ∷ ms) = insert_by-Ascending m (sort_by by_time ms) (sort_by-Ascending ms)

keep-Ascending :
    (p : StoredMessage → Bool) (ms : List StoredMessage) → Ascending ms → Ascending (keep p ms)
keep-Ascending p [] h = tt
keep-Ascending p (m ∷ ms) h = elim (Bool-cases (p m)) [
  | inl e ↦ rw e (All-keep (λ x. m.created_at ≤ x.created_at) p ms h.0, keep-Ascending p ms h.1)
  | inr e ↦ rw e (keep-Ascending p ms h.1)
]

pub past_of-Ascending : (number : Text) (db : Db) → Ascending (past_of number db)
unfolding history
past_of-Ascending number db =
    keep-Ascending _ (history number db)
      (sort_by-Ascending (keep (λ m. text_eq m.customer_number number) (all_messages db)))

All-right : (P : StoredMessage → Type 0) (xs ys : List StoredMessage) → All P (xs ++ ys) → All P ys
All-right P [] ys h = h
All-right P (x ∷ xs) ys h = All-right P xs ys h.1

-- What comes before is no later than what comes after, which is in order too.
pub Ascending-append :
    (xs ys : List StoredMessage)
    → Ascending (xs ++ ys)
    → All (λ x. All (λ y. x.created_at ≤ y.created_at) ys) xs × Ascending ys
Ascending-append [] ys h = (tt, h)
Ascending-append (x ∷ xs) ys h =
    let (earlier, order) = Ascending-append xs ys h.1 in
    ((All-right (λ y. x.created_at ≤ y.created_at) xs ys h.0, earlier), order)
