-- ===== src/Store/Tables.antt =====
-- db/schema.ts. A table is the list of its rows in insertion order. The tables of the webhooks are
-- those of webhooks/job-store.ts. An exception of the registry is the value that its text is made of.
use comdove_fake_backend.Base.{refl, ◌≡◌, Text, ℕ, Bool, true, false, Option, List, []}
use comdove_fake_backend.Contract.Types.{
  Direction, Source, BusinessNumber, Customer, RejectedRequest,
}

pub record Group : Type 0 where
  pub id : Text
  pub name : Text
  pub created_at : ℕ

pub record KeywordReply : Type 0 where
  pub customer_number : Text
  pub position : ℕ
  pub keyword : Text
  pub reply : Text

pub record Conversation : Type 0 where
  pub id : ℕ
  pub phone_number_id : Text
  pub customer_number : Text
  pub next_seq : ℕ

-- A row of `messages`.
pub record Message : Type 0 where
  pub wamid : Text
  pub conversation_id : ℕ
  pub seq : ℕ
  pub direction : Direction
  pub source : Source
  pub from_number : Text
  pub to_number : Text
  pub body : Text
  pub created_at : ℕ
  pub sent_at : Option ℕ
  pub delivered_at : Option ℕ
  pub read_at : Option ℕ

-- `next_conversation` is the AUTOINCREMENT counter, which a delete does not turn back.
pub record Db : Type 0 where
  pub business_numbers : List BusinessNumber
  pub groups : List Group
  pub customers : List Customer
  pub keyword_replies : List KeywordReply
  pub conversations : List Conversation
  pub next_conversation : ℕ
  pub messages : List Message
  pub rejected_requests : List RejectedRequest

pub data StoreError : Type 0 where
  bad_phone : (what raw : Text) → StoreError
  listed_twice : (number : Text) → StoreError
  too_many_business : StoreError
  display_taken : (number : Text) → StoreError
  id_taken : (id : Text) → StoreError
  is_customer : (number : Text) → StoreError
  group_size : StoreError
  bad_group_name : StoreError
  in_other_group : (number : Text) → StoreError
  is_business : (number : Text) → StoreError
  unknown_customer : (number : Text) → StoreError
  unknown_business : (id : Text) → StoreError
  constraint_failed : StoreError  -- a `SqliteError`

-- `err instanceof InvalidInputError`
abbrev pub is_invalid_input : StoreError → Bool
is_invalid_input (bad_phone what raw) = true
is_invalid_input (listed_twice number) = true
is_invalid_input _ = false

pub data Result {ℓ} (A : Type ℓ) : Type ℓ where
  ok : A → Result A
  throw : StoreError → Result A

infixl 5 ◌>>=◌ ◌>>◌
abbrev pub ◌>>=◌ {ℓ κ} : {A : Type ℓ} {B : Type κ} → Result A → (A → Result B) → Result B
ok a >>= f = f a
throw e >>= f = throw e

abbrev pub ◌>>◌ {ℓ} : {B : Type ℓ} → Result (Unit {0}) → Result B → Result B
m >> k = m >>= λ _. k

-- `if (test) throw e`
abbrev pub refuse : Bool → StoreError → Result (Unit {0})
refuse true e = throw e
refuse false e = ok tt

unfoldable pub empty_db : Db
empty_db = record {
  business_numbers = [];
  groups = [];
  customers = [];
  keyword_replies = [];
  conversations = [];
  next_conversation = 1;
  messages = [];
  rejected_requests = [];
}

-- A chain that returns has gone through every link.
pub refuse_all-ok :
    (t₁ t₂ t₃ t₄ : Bool) (e₁ e₂ e₃ e₄ : StoreError)
    → (refuse t₁ e₁ >> (refuse t₂ e₂ >> (refuse t₃ e₃ >> refuse t₄ e₄))) ≡ ok tt
    → (t₁ ≡ false) × (t₂ ≡ false) × (t₃ ≡ false) × (t₄ ≡ false)
refuse_all-ok true t₂ t₃ t₄ e₁ e₂ e₃ e₄ h = cc
refuse_all-ok false true t₃ t₄ e₁ e₂ e₃ e₄ h = cc
refuse_all-ok false false true t₄ e₁ e₂ e₃ e₄ h = cc
refuse_all-ok false false false true e₁ e₂ e₃ e₄ h = cc
refuse_all-ok false false false false e₁ e₂ e₃ e₄ h = (refl, refl, refl, refl)

pub bind-ok {ℓ κ} :
    {A : Type ℓ} {B : Type κ} (m : Result A) (f : A → Result B) (b : B)
    → (m >>= f) ≡ ok b
    → (a : A) × (m ≡ ok a) × (f a ≡ ok b)
bind-ok (ok a) f b h = (a, refl, h)
bind-ok (throw e) f b h = cc
