-- ===== src/Store/Messages/Stored.antt =====
-- `storeMessage` of core/messages.ts keeps the numbering of the tables and never breaks it.
use comdove_fake_backend.Base.{
  ◌==◌, if◌then◌else◌, ==_iff, Bool-cases, Option-cases, find, All, All-append, Text, text_eq_sound,
  ℕ, suc, ◌≤◌, ◌<◌, ◌≡◌, refl, sym, subst, ◌∙◌, inl, inr, Bool, true, Option, none, some, List, [],
  ◌∷◌, ◌++◌, map, arith,
}
use comdove_fake_backend.Store.Tables.{Conversation, Db}
use comdove_fake_backend.Store.Messages.{
  is_between, new_conversation, conversation_between, set_next_seq,
}

abbrev pub conversation_of : ℕ → List Conversation → Option Conversation
conversation_of id cs = find (λ c. c.id == id) cs

abbrev pub IsBelow : ℕ → Option Conversation → Type 0
IsBelow seq none = ⊥
IsBelow seq (some c) = seq < c.next_seq

-- Conversation ids are unique and below the counter, and every message is numbered below the next
-- number of its conversation, which is there.
pub record Numbered (db : Db) : Type 0 where
  pub fresh : All (λ c. c.id < db.next_conversation) db.conversations
  pub unique : All (λ c. conversation_of c.id db.conversations ≡ some c) db.conversations
  pub numbered :
      All (λ r. IsBelow r.seq (conversation_of r.conversation_id db.conversations)) db.messages

pub find-All {ℓ κ} :
    {A : Type ℓ} (P : A → Type κ) (p : A → Bool) (xs : List A) (x : A)
    → find p xs ≡ some x
    → All P xs
    → P x × (p x ≡ true)
find-All P p [] x h ys_all = cc
find-All P p (y ∷ ys) x h ys_all = elim (Bool-cases (p y)) [
  | inl e ↦ let same : y ≡ x = ground arith in rw (← same) (ys_all.0, e)
  | inr e ↦ find-All P p ys x (ground arith) ys_all.1
]

-- No row has an id at or above the counter.
find_fresh :
    (id n : ℕ) (cs : List Conversation)
    → n ≤ id
    → All (λ c. c.id < n) cs
    → conversation_of id cs ≡ none
find_fresh id n [] h below = refl
find_fresh id n (c ∷ cs) h below = ground (arith, find_fresh id n cs h below.1, below.0)

-- A row at the end hides no earlier one.
pub conversation_of-append :
    (id : ℕ) (c d : Conversation) (cs : List Conversation)
    → conversation_of id cs ≡ some c
    → conversation_of id (cs ++ d ∷ []) ≡ some c
conversation_of-append id c d [] h = cc
conversation_of-append id c d (x ∷ cs) h = ground (arith, conversation_of-append id c d cs)

conversation_of-append_new :
    (d : Conversation) (cs : List Conversation)
    → conversation_of d.id cs ≡ none
    → conversation_of d.id (cs ++ d ∷ []) ≡ some d
conversation_of-append_new d [] h = ground arith
conversation_of-append_new d (x ∷ cs) h = ground (arith, conversation_of-append_new d cs)

IsBelow-found :
    (seq : ℕ) (o o' : Option Conversation)
    → ((c : Conversation) → o ≡ some c → o' ≡ some c)
    → IsBelow seq o
    → IsBelow seq o'
IsBelow-found seq none o' h b = absurd b
IsBelow-found seq (some c) o' h b = rw (h c refl) b

IsBelow-append :
    (seq id : ℕ) (d : Conversation) (cs : List Conversation)
    → IsBelow seq (conversation_of id cs)
    → IsBelow seq (conversation_of id (cs ++ d ∷ []))
IsBelow-append seq id d cs b = IsBelow-found seq _ _ (λ c h. conversation_of-append id c d cs h) b

-- What `UPDATE conversations SET next_seq` does to a row, and to the row of an id.
abbrev pub bump : ℕ → ℕ → Conversation → Conversation
bump k n c = if c.id == k then record c { next_seq = n } else c

abbrev pub bumped : ℕ → ℕ → Option Conversation → Option Conversation
bumped k n none = none
bumped k n (some c) = some (bump k n c)

pub conversation_of-set_next_seq :
    (id k n : ℕ) (cs : List Conversation)
    → conversation_of id (set_next_seq k n cs) ≡ bumped k n (conversation_of id cs)
unfolding set_next_seq
conversation_of-set_next_seq id k n [] = refl
conversation_of-set_next_seq id k n (c ∷ cs) =
    ground (arith, conversation_of-set_next_seq id k n cs)

All-map {ℓ κ} :
    {A : Type ℓ} (P Q : A → Type κ) (f : A → A)
    → ((a : A) → P a → Q (f a))
    → (xs : List A) → All P xs
    → All Q (map f xs)
All-map P Q f h [] v = tt
All-map P Q f h (x ∷ xs) v = (h x v.0, All-map P Q f h xs v.1)

pub All-weaken {ℓ κ} :
    {A : Type ℓ} (P Q : A → Type κ) → ((a : A) → P a → Q a) → (xs : List A) → All P xs → All Q xs
All-weaken P Q h [] v = tt
All-weaken P Q h (x ∷ xs) v = (h x v.0, All-weaken P Q h xs v.1)

bump-id : (k n : ℕ) (c : Conversation) → (bump k n c).id ≡ c.id
bump-id k n c = ground arith

bumped-IsBelow :
    (seq k n : ℕ) (o : Option Conversation)
    → ((c : Conversation) → o ≡ some c → c.id ≡ k → c.next_seq ≤ n)
    → IsBelow seq o
    → IsBelow seq (bumped k n o)
bumped-IsBelow seq k n none h b = b
bumped-IsBelow seq k n (some c) h b = elim (Bool-cases (c.id == k)) [
  | inl e ↦ let le = h c refl (ground arith) in rw e (ground arith)
  | inr e ↦ rw e b
]

pub find_sound {ℓ} :
    {A : Type ℓ} (p : A → Bool) (xs : List A) (x : A) → find p xs ≡ some x → p x ≡ true
find_sound p [] x h = cc
find_sound p (y ∷ ys) x h = ground (arith, find_sound p ys x)

-- Rows with one id are one row.
same_row :
    (cs : List Conversation) (x c : Conversation) (id : ℕ)
    → conversation_of id cs ≡ some x
    → x.id ≡ c.id
    → conversation_of c.id cs ≡ some c
    → x ≡ c
same_row cs x c id h e found =
    let own : x.id ≡ id = (==_iff x.id id).0 (find_sound (λ r. r.id == id) cs x h) in
    let both : conversation_of c.id cs ≡ some x =
      subst (λ n. conversation_of n cs ≡ some x) (sym own ∙ e) h in
    ground arith

-- Giving a conversation a number that is not lower keeps the numbering.
pub set_next_seq-Numbered :
    (c : Conversation) (n : ℕ) (db : Db)
    → conversation_of c.id db.conversations ≡ some c
    → c.next_seq ≤ n
    → Numbered db
    → Numbered (record db { conversations = set_next_seq c.id n db.conversations })
unfolding set_next_seq
set_next_seq-Numbered c n db found le v = record {
  fresh =
      All-map (λ x. x.id < db.next_conversation) (λ x. x.id < db.next_conversation) (bump c.id n)
        (λ x h. rw (bump-id c.id n x) h) db.conversations v.fresh;
  unique =
      All-map (λ x. conversation_of x.id db.conversations ≡ some x)
        (λ x. conversation_of x.id (set_next_seq c.id n db.conversations) ≡ some x) (bump c.id n)
        (λ x h.
          rw (bump-id c.id n x, conversation_of-set_next_seq x.id c.id n db.conversations, h) refl)
        db.conversations v.unique;
  numbered =
      All-weaken (λ r. IsBelow r.seq (conversation_of r.conversation_id db.conversations))
        (λ r.
          IsBelow r.seq (conversation_of r.conversation_id (set_next_seq c.id n db.conversations)))
        (λ r h. rw (conversation_of-set_next_seq r.conversation_id c.id n db.conversations) (
          bumped-IsBelow r.seq c.id n _
            (λ x at id. rw (same_row db.conversations x c r.conversation_id at id found) le) h))
        db.messages v.numbered;
}

new_conversation-Numbered :
    (pid number : Text) (db : Db)
    → Numbered db
    → Numbered (record db {
      conversations = db.conversations ++ new_conversation db.next_conversation pid number ∷ [];
      next_conversation = suc db.next_conversation;
    })
new_conversation-Numbered pid number db v =
    let d = new_conversation db.next_conversation pid number in
    let absent = find_fresh d.id db.next_conversation db.conversations (omega arith) v.fresh in
    record {
      fresh =
          All-append (λ c. c.id < suc db.next_conversation) db.conversations (d ∷ [])
            (All-weaken (λ c. c.id < db.next_conversation) (λ c. c.id < suc db.next_conversation)
              (λ c h. omega arith) db.conversations v.fresh)
            (omega arith, tt);
      unique =
          All-append (λ c. conversation_of c.id (db.conversations ++ d ∷ []) ≡ some c)
            db.conversations (d ∷ [])
            (All-weaken (λ c. conversation_of c.id db.conversations ≡ some c)
              (λ c. conversation_of c.id (db.conversations ++ d ∷ []) ≡ some c)
              (λ c h. conversation_of-append c.id c d db.conversations h) db.conversations v.unique)
            (conversation_of-append_new d db.conversations absent, tt);
      numbered =
          All-weaken (λ r. IsBelow r.seq (conversation_of r.conversation_id db.conversations))
            (λ r. IsBelow r.seq (conversation_of r.conversation_id (db.conversations ++ d ∷ [])))
            (λ r h. IsBelow-append r.seq r.conversation_id d db.conversations h) db.messages
            v.numbered;
    }

-- What `conversationFor` hands back: the pair's row, in well-numbered tables with the same messages.
pub record Pair (pid number : Text) (db : Db) (found : Conversation × Db) : Type 0 where
  pub numbered : Numbered found.1
  pub there : conversation_of found.0.id found.1.conversations ≡ some found.0
  pub phone : found.0.phone_number_id ≡ pid
  pub customer : found.0.customer_number ≡ number
  pub same : found.1.messages ≡ db.messages
  pub businesses : found.1.business_numbers ≡ db.business_numbers
  pub kept :
      (id : ℕ) (c : Conversation)
      → conversation_of id db.conversations ≡ some c
      → conversation_of id found.1.conversations ≡ some c

pub conversation_between-Pair :
    (pid number : Text) (db : Db)
    → Numbered db
    → Pair pid number db (conversation_between pid number db)
unfolding conversation_between
conversation_between-Pair pid number db v =
    elim (Option-cases (find (is_between pid number) db.conversations)) [
      | inl e ↦
          rw (e, conversation_between)
            (let d = new_conversation db.next_conversation pid number in
              record {
                numbered = new_conversation-Numbered pid number db v;
                there =
                    conversation_of-append_new d db.conversations
                      (find_fresh d.id db.next_conversation db.conversations (omega arith) v.fresh);
                phone = refl;
                customer = refl;
                same = refl;
                businesses = refl;
                kept = λ id c h. conversation_of-append id c d db.conversations h;
              })
      | inr (c, e) ↦
          rw (e, conversation_between)
            (let (there, between) =
                find-All (λ x. conversation_of x.id db.conversations ≡ some x)
                  (is_between pid number) db.conversations c e v.unique in
              record {
                numbered = v;
                there = there;
                phone = text_eq_sound c.phone_number_id pid (ground arith);
                customer = text_eq_sound c.customer_number number (ground arith);
                same = refl;
                businesses = refl;
                kept = λ id c h. h;
              })
    ]
