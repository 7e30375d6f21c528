-- ===== src/Store/Messages/Receipt.antt =====
-- What `storeMessage` of core/messages.ts returns, and what the tables hold after it.
use comdove_fake_backend.Base.{
  suc, Option, find, text_eq_refl, ◌==◌, if◌then◌else◌, Bool-cases, Option-cases, or_else, any, All,
  All-append, Text, text_eq, ℕ, ◌+◌, ◌<◌, ◌≡◌, refl, sym, subst, inl, inr, Bool, false, ◌&&◌, ◌||◌,
  none, some, List, [], ◌∷◌, ◌++◌, arith,
}
use comdove_fake_backend.Contract.Types.{StoredMessage, is_outbound}
use comdove_fake_backend.Store.Tables.{Conversation, Message, Db, ok}
use comdove_fake_backend.Store.Registry.{get_business}
use comdove_fake_backend.Store.Messages.{
  is_between, new_conversation, NewMessage, phone_number_id_or, business_key, customer_key,
  conversation_between, conversation_for, set_next_seq, new_row, joined, select_messages,
  all_messages, insert_message, store_message,
}
use comdove_fake_backend.Store.Messages.Stored.{
  conversation_of, IsBelow, Numbered, bump, bumped, conversation_of-set_next_seq, All-weaken,
  set_next_seq-Numbered, Pair, conversation_between-Pair,
}

select_messages-append :
    (rs : List Message) (r : Message) (c : Conversation) (cs : List Conversation)
    → conversation_of r.conversation_id cs ≡ some c
    → select_messages (rs ++ r ∷ []) cs ≡ select_messages rs cs ++ joined r c ∷ []
unfolding select_messages
select_messages-append [] r c cs h = rw (h, select_messages) refl
select_messages-append (x ∷ rs) r c cs h =
    elim (Option-cases (conversation_of x.conversation_id cs)) [
      | inl e ↦ rw (e, select_messages) (rw (select_messages-append rs r c cs h) refl)
      | inr (d, e) ↦ rw (e, select_messages) (rw (select_messages-append rs r c cs h) refl)
    ]

-- The keys of conversations decide what the join gives.
Kept : List Conversation → List Conversation → Type 0
Kept cs cs' =
    (id : ℕ) (c : Conversation)
    → conversation_of id cs ≡ some c
    → (c' : Conversation) × (conversation_of id cs' ≡ some c')
      × (c'.phone_number_id ≡ c.phone_number_id)
      × (c'.customer_number ≡ c.customer_number)

select_messages-Kept :
    (rs : List Message) (cs cs' : List Conversation)
    → Kept cs cs'
    → All (λ r. IsBelow r.seq (conversation_of r.conversation_id cs)) rs
    → select_messages rs cs' ≡ select_messages rs cs
unfolding select_messages Kept
select_messages-Kept [] cs cs' k v = refl
select_messages-Kept (r ∷ rs) cs cs' k v =
    elim (Option-cases (conversation_of r.conversation_id cs)) [
      | inl e ↦ absurd (subst (IsBelow r.seq) e v.0)
      | inr (c, e) ↦
          let (c', e', phone, customer) = k r.conversation_id c e in
          rw (e, e', select_messages)
            (rw (select_messages-Kept rs cs cs' k v.1, phone, customer) refl)
    ]

-- A row numbered below its conversation's next number is not the new one.
no_clash :
    (w : Text) (c : Conversation) (cs : List Conversation) (rs : List Message)
    → conversation_of c.id cs ≡ some c
    → All (λ r. IsBelow r.seq (conversation_of r.conversation_id cs)) rs
    → any (λ x. text_eq x.wamid w) rs ≡ false
    → any (λ x. text_eq x.wamid w || (x.conversation_id == c.id && x.seq == c.next_seq)) rs ≡ false
no_clash w c cs [] h v fresh = refl
no_clash w c cs (r ∷ rs) h v fresh =
    let (new, rest) : (text_eq r.wamid w ≡ false) × (any (λ x. text_eq x.wamid w) rs ≡ false) =
      ground arith in
    rw (new, no_clash w c cs rs h v.1 rest)
      (elim (Bool-cases (r.conversation_id == c.id)) [
        | inr e ↦ rw e refl
        | inl e ↦
            let same : r.conversation_id ≡ c.id = ground arith in
            let own : IsBelow r.seq (some c) =
              subst (IsBelow r.seq) h
                (subst (λ n. IsBelow r.seq (conversation_of n cs)) same v.0) in
            let less : r.seq < c.next_seq = own in ground arith
      ])

below_next :
    (c : Conversation) (cs : List Conversation) (rs : List Message)
    → conversation_of c.id cs ≡ some c
    → All (λ r. IsBelow r.seq (conversation_of r.conversation_id cs)) rs
    → All (λ r. r.conversation_id ≡ c.id → r.seq < c.next_seq) rs
below_next c cs rs h v =
    All-weaken (λ r. IsBelow r.seq (conversation_of r.conversation_id cs))
      (λ r. r.conversation_id ≡ c.id → r.seq < c.next_seq)
      (λ r b same.
        subst (IsBelow r.seq) h (subst (λ n. IsBelow r.seq (conversation_of n cs)) same b))
      rs v

-- The keys of a row are not changed by a new `next_seq`.
Kept-bumped :
    (db : Db) (d : Conversation × Db) (pid number : Text)
    → Pair pid number db d
    → (n : ℕ) → Kept db.conversations (set_next_seq d.0.id n d.1.conversations)
unfolding Kept
Kept-bumped db d pid number p n = λ id c h. (
  bump d.0.id n c,
  rw (conversation_of-set_next_seq id d.0.id n d.1.conversations, p.kept id c h) refl,
  ground arith,
  ground arith,
)

-- The number that the next message of a pair gets.
abbrev pub next_of : Option Conversation → ℕ
next_of none = 1
next_of (some c) = c.next_seq

abbrev pub next_between : Text → Text → List Conversation → ℕ
next_between pid number cs = next_of (find (is_between pid number) cs)

find-bump :
    (pid number : Text) (k n : ℕ) (cs : List Conversation)
    → find (is_between pid number) (set_next_seq k n cs)
      ≡ bumped k n (find (is_between pid number) cs)
unfolding set_next_seq
find-bump pid number k n [] = refl
find-bump pid number k n (c ∷ cs) =
    let same : is_between pid number (bump k n c) ≡ is_between pid number c = ground arith in
    elim (Bool-cases (is_between pid number c)) [
      | inl e ↦ rw (same, e) refl
      | inr e ↦ rw (same, e) (find-bump pid number k n cs)
    ]

find-new :
    (pid number : Text) (id : ℕ) (cs : List Conversation)
    → find (is_between pid number) cs ≡ none
    → find (is_between pid number) (cs ++ new_conversation id pid number ∷ [])
      ≡ some (new_conversation id pid number)
find-new pid number id [] h = rw (text_eq_refl pid, text_eq_refl number) refl
find-new pid number id (c ∷ cs) h = elim (Bool-cases (is_between pid number c)) [
  | inl e ↦ absurd (ground arith)
  | inr e ↦ rw e (find-new pid number id cs (rw e at h))
]

-- `conversationFor` hands back the row that the pair is found by, with the pair's next number.
conversation_between-found :
    (pid number : Text) (db : Db)
    → let found = conversation_between pid number db in
      (find (is_between pid number) found.1.conversations ≡ some found.0)
      × (found.0.next_seq ≡ next_between pid number db.conversations)
unfolding conversation_between
conversation_between-found pid number db =
    elim (Option-cases (find (is_between pid number) db.conversations)) [
      | inl e ↦
          rw (conversation_between, e)
            (find-new pid number db.next_conversation db.conversations e, refl)
      | inr (c, e) ↦ rw (conversation_between, e) (e, refl)
    ]

-- What a stored message is to the tables before and after it.
pub record IsStored (m : NewMessage) (generated : Text) (now : ℕ) (db db' : Db) (s : StoredMessage)
    : Type 0 where
  pub numbered : Numbered db'
  pub businesses : db'.business_numbers ≡ db.business_numbers
  pub added : all_messages db' ≡ all_messages db ++ s ∷ []
  pub newest : All (λ r. r.conversation_id ≡ s.conversation_id → r.seq < s.seq) db.messages
  pub next : s.seq ≡ next_between s.phone_number_id s.customer_number db.conversations
  pub gapless : next_between s.phone_number_id s.customer_number db'.conversations ≡ suc s.seq
  pub asked :
      (s.direction ≡ m.direction) × (s.source ≡ m.source) × (s.created_at ≡ or_else m.at now)
  pub wamid : s.wamid ≡ or_else m.wamid generated
  pub phone :
      s.phone_number_id ≡ phone_number_id_or (get_business (business_key m) db) (business_key m)
  pub customer : s.customer_number ≡ customer_key m
  pub parties : (s.from_number ≡ m.from) × (s.to_number ≡ m.to) × (s.body ≡ m.body)
  pub sent : s.sent_at ≡ (if is_outbound m.direction then some (or_else m.at now) else none)
  pub unread : (s.delivered_at ≡ none) × (s.read_at ≡ none)

abbrev clashes : Message → Message → Bool
clashes r x = text_eq x.wamid r.wamid || (x.conversation_id == r.conversation_id && x.seq == r.seq)

abbrev Below : Db → Message → Type 0
Below db r = IsBelow r.seq (conversation_of r.conversation_id db.conversations)

module _ (m : NewMessage) (generated : Text) (now : ℕ) (db : Db) (v : Numbered db) where
  abbrev pid : Text
  pid = phone_number_id_or (get_business (business_key m) db) (business_key m)

  abbrev found : Conversation × Db
  found = conversation_between pid (customer_key m) db

  abbrev row : Message
  row = new_row m (or_else m.wamid generated) (or_else m.at now) found.0

  abbrev renumbered : Db
  renumbered = record found.1 {
    conversations = set_next_seq found.0.id (found.0.next_seq + 1) found.1.conversations;
  }

  abbrev stored : Db
  stored = record renumbered { messages = found.1.messages ++ row ∷ [] }

  found-Pair : Pair pid (customer_key m) db found
  found-Pair = conversation_between-Pair pid (customer_key m) db v

  row_there :
      conversation_of found.0.id renumbered.conversations
      ≡ some (record found.0 { next_seq = found.0.next_seq + 1 })
  row_there =
      let p = found-Pair in
      rw
        (
          conversation_of-set_next_seq found.0.id found.0.id (found.0.next_seq + 1)
              found.1.conversations,
          p.there,
        )
        (ground arith)

  stored-Numbered : Numbered stored
  stored-Numbered =
      let p = found-Pair in
      let up =
        set_next_seq-Numbered found.0 (found.0.next_seq + 1) found.1 p.there (omega arith)
          p.numbered in
      record {
        fresh = up.fresh;
        unique = up.unique;
        numbered =
            All-append
              (λ r. IsBelow r.seq (conversation_of r.conversation_id renumbered.conversations))
              found.1.messages (row ∷ []) up.numbered
              (subst (IsBelow found.0.next_seq) (sym row_there) (omega arith), tt);
      }

  stored-added : all_messages stored ≡ all_messages db ++ joined row found.0 ∷ []
  stored-added =
      let p = found-Pair in
      rw
        (
          select_messages-append found.1.messages row _ renumbered.conversations row_there,
          p.same,
          select_messages-Kept db.messages db.conversations renumbered.conversations
              (Kept-bumped db found pid (customer_key m) p (found.0.next_seq + 1)) v.numbered,
        )
        refl

  found_next :
      (pid' number : Text)
      → pid' ≡ pid
      → number ≡ customer_key m
      → (found.0.next_seq ≡ next_between pid' number db.conversations)
        × (next_between pid' number renumbered.conversations ≡ suc found.0.next_seq)
  found_next pid' number ep en =
      let (there, next) = conversation_between-found pid (customer_key m) db in
      rw (ep, en)
        (
          next,
          rw
              (
                find-bump pid (customer_key m) found.0.id (found.0.next_seq + 1)
                    found.1.conversations,
                there,
              )
              (ground arith),
        )

  abbrev taken : Bool
  taken = any (λ x. text_eq x.wamid (or_else m.wamid generated)) db.messages

  -- In well-numbered tables, a message whose wamid is not in use is stored: the tables stay well
  -- numbered and hold the message returned after all earlier ones; its `seq` is the next number of
  -- its business and its customer, 1 where they have none, above those of its conversation, and the
  -- next number is then one more; and its direction, source, keys, parties and timeline are those
  -- asked for.
  pub store_message_receipt :
      taken ≡ false
      → (s : StoredMessage) × (db' : Db) × (store_message m generated now db ≡ ok (s, db'))
        × IsStored m generated now db db' s
  unfolding store_message conversation_for insert_message
  store_message_receipt unused =
      let p = found-Pair in
      let rows = subst (λ rs. All (Below found.1) rs) p.same p.numbered.numbered in
      let fine : any (clashes row) found.1.messages ≡ false = rw (p.same) (
        no_clash (or_else m.wamid generated) found.0 found.1.conversations db.messages p.there rows
          unused) in
      (
        joined row found.0,
        stored,
        rw (store_message, conversation_for, insert_message, fine) refl,
        record {
          numbered = stored-Numbered;
          businesses = p.businesses;
          added = stored-added;
          newest = below_next found.0 found.1.conversations db.messages p.there rows;
          next = (found_next found.0.phone_number_id found.0.customer_number p.phone p.customer).0;
          gapless =
              (found_next found.0.phone_number_id found.0.customer_number p.phone p.customer).1;
          asked = (refl, refl, refl);
          wamid = refl;
          phone = p.phone;
          customer = p.customer;
          parties = (refl, refl, refl);
          sent = refl;
          unread = (refl, refl);
        },
      )
