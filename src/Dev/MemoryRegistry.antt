-- ===== src/Dev/MemoryRegistry.antt =====
-- dev/memory-registry.ts: the stand-in for the store, behind the same interface.
pub mod Agreement
pub mod Dense
pub mod Calls
use comdove_fake_backend.Base.{
  if◌then◌else◌, is_some, or_else, length, keep, find, Text, lit, text_eq, has_text, sort_by, ℕ,
  ◌+◌, ◌-◌, Bool, true, not, ◌&&◌, ◌||◌, Option, none, some, List, [], ◌∷◌, ◌++◌, map,
}
use comdove_fake_backend.Contract.Types.{StoredMessage, RejectedRequest, is_outbound}
use comdove_fake_backend.Contract.Decimal.{decimal}
use comdove_fake_backend.Store.Messages.{by_seq, PortMessage}

-- core/ports.ts
pub record KnownBusiness : Type 0 where
  pub phone_number_id : Text
  pub display_number : Text
  pub label : Option Text
  pub token : Text
  pub waba_id : Text

pub record KnownCustomer : Type 0 where
  pub number : Text
  pub group_id : Text
  pub label : Option Text
  pub online : Bool

-- A value of the `Map`, with its key.
pub record MemoryConversation : Type 0 where
  pub key : Text
  pub id : ℕ
  pub next_seq : ℕ

pub record MemoryRegistry : Type 0 where
  pub business : List KnownBusiness
  pub customers : List KnownCustomer
  pub messages : List StoredMessage
  pub rejected : List RejectedRequest
  pub conversations : List MemoryConversation

abbrev pub no_registry : MemoryRegistry
no_registry = record {
  business = [];
  customers = [];
  messages = [];
  rejected = [];
  conversations = [];
}

-- `Partial<BusinessNumber>` and `Partial<Customer>`: a field that is left out is `none`.
pub record BusinessPart : Type 0 where
  pub phone_number_id : Option Text
  pub display_number : Option Text
  pub label : Option (Option Text)
  pub token : Option Text
  pub waba_id : Option Text

pub record CustomerPart : Type 0 where
  pub number : Option Text
  pub group_id : Option Text
  pub label : Option (Option Text)
  pub online : Option Bool

abbrev pub seeded_business : BusinessPart → ℕ → KnownBusiness
seeded_business b n = record {
  phone_number_id = or_else b.phone_number_id (lit "MOCK-PN-" ++ decimal n);
  display_number = or_else b.display_number (lit "91888880000" ++ decimal n);
  label = or_else b.label none;
  token = or_else b.token (lit "t" ++ decimal n);
  waba_id = or_else b.waba_id (lit "MOCK-WABA-1");
}

abbrev pub seeded_customer : CustomerPart → KnownCustomer
seeded_customer c = record {
  number = or_else c.number (lit "919876543210");
  group_id = or_else c.group_id (lit "alpha");
  label = or_else c.label none;
  online = or_else c.online true;
}

unfoldable pub seed_business : List BusinessPart → MemoryRegistry → MemoryRegistry
seed_business [] r = r
seed_business (b ∷ bs) r =
    seed_business bs
      (record r { business = r.business ++ seeded_business b (length r.business + 1) ∷ [] })

unfoldable pub seed : List BusinessPart → List CustomerPart → MemoryRegistry → MemoryRegistry
unfolding seed_business
seed bs cs r =
    let r₁ = seed_business bs r in record r₁ { customers = r₁.customers ++ map seeded_customer cs }

unfoldable pub known_business : Text → MemoryRegistry → Option KnownBusiness
known_business key r =
    find (λ (b : KnownBusiness). text_eq b.phone_number_id key || text_eq b.display_number key)
      r.business

unfoldable pub known_customer : Text → MemoryRegistry → Option KnownCustomer
known_customer number r = find (λ (c : KnownCustomer). text_eq c.number number) r.customers

abbrev pub key_of : Text → Text → Text
key_of pid number = pid ++ lit "|" ++ number

unfoldable pub kept_at : Text → List MemoryConversation → Option MemoryConversation
kept_at key cs = find (λ (c : MemoryConversation). text_eq c.key key) cs

-- The `conv` of `storeMessage`, and the conversations with it.
unfoldable pub conversation_at :
    Text → List MemoryConversation → MemoryConversation × List MemoryConversation
unfolding kept_at
conversation_at key cs = elim (kept_at key cs) [
  | some c ↦ (c, cs)
  | none ↦
      let c : MemoryConversation = record { key = key; id = length cs + 1; next_seq = 1 } in
      (c, cs ++ c ∷ [])
]

-- `conv.nextSeq++`
abbrev pub step_seq : Text → MemoryConversation → MemoryConversation
step_seq key c = if text_eq c.key key then record c { next_seq = c.next_seq + 1 } else c

abbrev pub display_or : Option KnownBusiness → Text → Text
display_or none key = key
display_or (some b) key = b.display_number

abbrev pub stored_in : MemoryConversation → Text → PortMessage → StoredMessage
stored_in c display m = record {
  wamid = m.wamid;
  conversation_id = c.id;
  seq = c.next_seq;
  direction = m.direction;
  source = m.source;
  phone_number_id = m.phone_number_id;
  customer_number = m.customer_number;
  from_number = if is_outbound m.direction then display else m.customer_number;
  to_number = if is_outbound m.direction then m.customer_number else display;
  body = m.body;
  created_at = m.at;
  sent_at = if is_outbound m.direction then some m.at else none;
  delivered_at = none;
  read_at = none;
}

unfoldable pub store_message : PortMessage → MemoryRegistry → StoredMessage × MemoryRegistry
unfolding conversation_at known_business
store_message m r =
    let key = key_of m.phone_number_id m.customer_number in
    let (c, cs) = conversation_at key r.conversations in
    let display = display_or (known_business m.phone_number_id r) m.phone_number_id in
    let row = stored_in c display m in
    (row, record r { messages = r.messages ++ row ∷ []; conversations = map (step_seq key) cs })

unfoldable pub get_message : Text → MemoryRegistry → Option StoredMessage
get_message wamid r = find (λ m. text_eq m.wamid wamid) r.messages

abbrev pub delivered_now : List Text → ℕ → StoredMessage → StoredMessage
delivered_now ws at m =
    if has_text m.wamid ws && not (is_some m.delivered_at)
    then record m { delivered_at = some at }
    else m

abbrev pub read_now : List Text → ℕ → StoredMessage → StoredMessage
read_now ws at m =
    if has_text m.wamid ws && not (is_some m.read_at) then record m { read_at = some at } else m

unfoldable pub set_delivered : List Text → ℕ → MemoryRegistry → MemoryRegistry
set_delivered ws at r = record r { messages = map (delivered_now ws at) r.messages }

unfoldable pub set_read : List Text → ℕ → MemoryRegistry → MemoryRegistry
set_read ws at r = record r { messages = map (read_now ws at) r.messages }

abbrev pub is_unread_of : Text → Text → StoredMessage → Bool
is_unread_of customer pid m =
    is_outbound m.direction
    && text_eq m.customer_number customer
    && text_eq m.phone_number_id pid
    && is_some m.delivered_at
    && not (is_some m.read_at)

unfoldable pub unread_delivered : Text → Text → MemoryRegistry → List StoredMessage
unread_delivered customer pid r = sort_by by_seq (keep (is_unread_of customer pid) r.messages)

unfoldable pub log_rejected : RejectedRequest → MemoryRegistry → MemoryRegistry
log_rejected q r = record r { rejected = r.rejected ++ q ∷ [] }
