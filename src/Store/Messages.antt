-- ===== src/Store/Messages.antt =====
-- core/messages.ts without its log, and the message part of core/registry-adapter.ts.
pub mod Stored
pub mod Receipt
pub mod Marks
use comdove_fake_backend.Base.{
  ltb, ◌==◌, if◌then◌else◌, is_some, or_else, keep, find, any, Text, text_eq, sort_by, ℕ, suc, ◌+◌,
  Bool, not, ◌&&◌, ◌||◌, Option, none, some, List, [], ◌∷◌, ◌++◌, map,
}
use comdove_fake_backend.Contract.Types.{
  Direction, Source, BusinessNumber, StoredMessage, is_outbound,
}
use comdove_fake_backend.Store.Tables.{
  Conversation, Message, Db, unknown_business, constraint_failed, Result, ok, throw, ◌>>=◌, ◌>>◌,
  refuse,
}
use comdove_fake_backend.Store.Registry.{get_business}

-- `from` and `to` are display numbers.
pub record NewMessage : Type 0 where
  pub from : Text
  pub to : Text
  pub body : Text
  pub direction : Direction
  pub source : Source
  pub wamid : Option Text
  pub at : Option ℕ

abbrev pub phone_number_id_or : Option BusinessNumber → Text → Text
phone_number_id_or none key = key
phone_number_id_or (some b) key = b.phone_number_id

abbrev pub business_key : NewMessage → Text
business_key m = if is_outbound m.direction then m.from else m.to

abbrev pub customer_key : NewMessage → Text
customer_key m = if is_outbound m.direction then m.to else m.from

abbrev pub is_between : Text → Text → Conversation → Bool
is_between pid number c = text_eq c.phone_number_id pid && text_eq c.customer_number number

abbrev pub new_conversation : ℕ → Text → Text → Conversation
new_conversation id pid number = record {
  id = id;
  phone_number_id = pid;
  customer_number = number;
  next_seq = 1;
}

-- `conversationFor`, with its keys computed: the row, and the tables with it.
unfoldable pub conversation_between : Text → Text → Db → Conversation × Db
conversation_between pid number db = elim (find (is_between pid number) db.conversations) [
  | some c ↦ (c, db)
  | none ↦ (
    new_conversation db.next_conversation pid number,
    record db {
      conversations = db.conversations ++ new_conversation db.next_conversation pid number ∷ [];
      next_conversation = suc db.next_conversation;
    },
  )
]

unfoldable pub conversation_for : NewMessage → Db → Conversation × Db
unfolding conversation_between
conversation_for m db =
    conversation_between (phone_number_id_or (get_business (business_key m) db) (business_key m))
      (customer_key m) db

unfoldable pub set_next_seq : ℕ → ℕ → List Conversation → List Conversation
set_next_seq id n cs = map (λ c. if c.id == id then record c { next_seq = n } else c) cs

abbrev pub new_row : NewMessage → Text → ℕ → Conversation → Message
new_row m wamid created_at c = record {
  wamid = wamid;
  conversation_id = c.id;
  seq = c.next_seq;
  direction = m.direction;
  source = m.source;
  from_number = m.from;
  to_number = m.to;
  body = m.body;
  created_at = created_at;
  sent_at = if is_outbound m.direction then some created_at else none;
  delivered_at = none;
  read_at = none;
}

-- SELECT_MESSAGE: a row with the keys of its conversation.
abbrev pub joined : Message → Conversation → StoredMessage
joined r c = record {
  wamid = r.wamid;
  conversation_id = r.conversation_id;
  seq = r.seq;
  direction = r.direction;
  source = r.source;
  phone_number_id = c.phone_number_id;
  customer_number = c.customer_number;
  from_number = r.from_number;
  to_number = r.to_number;
  body = r.body;
  created_at = r.created_at;
  sent_at = r.sent_at;
  delivered_at = r.delivered_at;
  read_at = r.read_at;
}

unfoldable pub select_messages : List Message → List Conversation → List StoredMessage
select_messages [] cs = []
select_messages (r ∷ rs) cs =
    let rest = select_messages rs cs in
    elim (find (λ c. c.id == r.conversation_id) cs) [ none ↦ rest | some c ↦ joined r c ∷ rest ]

abbrev pub all_messages : Db → List StoredMessage
all_messages db = select_messages db.messages db.conversations

-- The INSERT, with the PRIMARY KEY and the UNIQUE constraint of `messages`.
unfoldable pub insert_message : Message → Db → Result Db
insert_message r db = do
  refuse
      (any
        (λ x. text_eq x.wamid r.wamid || (x.conversation_id == r.conversation_id && x.seq == r.seq))
        db.messages)
      constraint_failed
  ok (record db { messages = db.messages ++ r ∷ [] })

-- `storeMessage`; `generated` is the random wamid. A failed INSERT rolls the transaction back.
unfoldable pub store_message :
    NewMessage → (generated : Text) → (now : ℕ) → Db → Result (StoredMessage × Db)
unfolding conversation_for set_next_seq insert_message
store_message m generated now db =
    let (c, db₁) = conversation_for m db in
    let row = new_row m (or_else m.wamid generated) (or_else m.at now) c in
    insert_message row
      (record db₁ { conversations = set_next_seq c.id (c.next_seq + 1) db₁.conversations })
    >>= λ db₂. ok (joined row c, db₂)

unfoldable pub get_message : Text → Db → Option StoredMessage
unfolding select_messages
get_message wamid db = find (λ m. text_eq m.wamid wamid) (all_messages db)

-- `COALESCE(t, at)`
abbrev pub coalesce : Option ℕ → ℕ → Option ℕ
coalesce t at = some (or_else t at)

abbrev pub mark_delivered : ℕ → Text → Message → Message
mark_delivered at wamid r =
    if text_eq r.wamid wamid then record r { delivered_at = coalesce r.delivered_at at } else r

abbrev pub mark_read : ℕ → Text → Message → Message
mark_read at wamid r =
    if text_eq r.wamid wamid then record r { read_at = coalesce r.read_at at } else r

unfoldable pub set_delivered : List Text → ℕ → Db → Db
set_delivered [] at db = db
set_delivered (w ∷ ws) at db =
    set_delivered ws at (record db { messages = map (mark_delivered at w) db.messages })

unfoldable pub set_read : List Text → ℕ → Db → Db
set_read [] at db = db
set_read (w ∷ ws) at db = set_read ws at (record db { messages = map (mark_read at w) db.messages })

-- In `seq` order, and in the order of conversations, then of `seq`.
abbrev pub by_seq : StoredMessage → StoredMessage → Bool
by_seq a b = ltb a.seq b.seq

abbrev pub by_conversation : StoredMessage → StoredMessage → Bool
by_conversation a b =
    ltb a.conversation_id b.conversation_id
    || (a.conversation_id == b.conversation_id && by_seq a b)

abbrev pub by_time : StoredMessage → StoredMessage → Bool
by_time a b = ltb a.created_at b.created_at || (a.created_at == b.created_at && by_seq a b)

abbrev pub is_unread : Text → Text → StoredMessage → Bool
is_unread number pid m =
    text_eq m.customer_number number
    && text_eq m.phone_number_id pid
    && is_outbound m.direction
    && is_some m.delivered_at
    && not (is_some m.read_at)

unfoldable pub unread_delivered : Text → Text → Db → List StoredMessage
unfolding select_messages
unread_delivered number pid db = sort_by by_seq (keep (is_unread number pid) (all_messages db))

abbrev pub is_queued : Text → StoredMessage → Bool
is_queued number m =
    text_eq m.customer_number number && is_outbound m.direction && not (is_some m.delivered_at)

unfoldable pub queued_for : Text → Db → List StoredMessage
unfolding select_messages
queued_for number db = sort_by by_conversation (keep (is_queued number) (all_messages db))

-- Where `created_at` and `seq` are both equal SQL leaves the order open: here that of insertion.
unfoldable pub history : Text → Db → List StoredMessage
unfolding select_messages
history number db = sort_by by_time (keep (λ m. text_eq m.customer_number number) (all_messages db))

-- core/ports.ts: what the lifecycle asks the adapter to store.
pub record PortMessage : Type 0 where
  pub wamid : Text
  pub direction : Direction
  pub source : Source
  pub phone_number_id : Text
  pub customer_number : Text
  pub body : Text
  pub at : ℕ

abbrev pub to_new_message : PortMessage → BusinessNumber → NewMessage
to_new_message m b = record {
  wamid = some m.wamid;
  at = some m.at;
  direction = m.direction;
  source = m.source;
  from = if is_outbound m.direction then b.display_number else m.customer_number;
  to = if is_outbound m.direction then m.customer_number else b.display_number;
  body = m.body;
}

-- The adapter's `storeMessage`.
unfoldable pub store_port_message : PortMessage → Db → Result (StoredMessage × Db)
unfolding store_message
store_port_message m db = elim (get_business m.phone_number_id db) [
  | none ↦ throw (unknown_business m.phone_number_id)
  | some b ↦ store_message (to_new_message m b) m.wamid m.at db
]
