-- ===== src/Checks/Storing.antt =====
-- The store of core/registry.ts and core/messages.ts on small tables.
use comdove_fake_backend.Contract.Decimal.{decimal}
use comdove_fake_backend.Base.{
  Text, lit, text_eq, text_eq_refl, is_space, strip_separators, is_phone, digits_only, ℕ, ◌≡◌, refl,
  ◌≢◌, true, false, Option, none, some, [], ◌∷◌, ◌++◌, arith,
}
use comdove_fake_backend.Contract.Types.{
  outbound, api, manual, keyword, AutoReply, BusinessNumber, Customer, StoredMessage,
}
use comdove_fake_backend.Store.Tables.{Message, Db, ok, empty_db}
use comdove_fake_backend.Store.Registry.{
  phone_number, get_business, get_customer, BusinessInput, starts_with, highest, some_of,
  check_registration, next_mock_number, next_mock_phone_number_id, insert_business,
  register_business_number,
}
use comdove_fake_backend.Store.Messages.{NewMessage, store_message}
use comdove_fake_backend.Store.Messages.Stored.{Numbered}
use comdove_fake_backend.Store.Messages.Receipt.{IsStored, store_message_receipt}
use comdove_fake_backend.Store.Groups.{get_auto_reply, set_auto_reply}
use comdove_fake_backend.Store.Groups.AutoReplies.{set_auto_reply-get}
use comdove_fake_backend.Store.Numbers.{Registered, register_business_number-Registered}

abbrev pub shop : BusinessNumber
shop = record {
  phone_number_id = lit "MOCK-PN-1";
  display_number = lit "15550001";
  label = none;
  token = lit "t";
  waba_id = lit "MOCK-WABA-1";
  created_at = 0;
}

abbrev pub ana : Customer
ana = record {
  number = lit "60111222";
  group_id = lit "team-a";
  position = 0;
  label = none;
  online = true;
  reply_mode = manual;
  reply_delay_ms = 0;
}

abbrev pub small_db : Db
small_db = record {
  business_numbers = shop ∷ [];
  groups = [];
  customers = ana ∷ [];
  keyword_replies = [];
  conversations = [];
  next_conversation = 1;
  messages = [];
  rejected_requests = [];
}

pub small_db-Numbered : Numbered small_db
unfolding empty_db
small_db-Numbered = record { fresh = tt; unique = tt; numbered = tt }

abbrev hello : NewMessage
hello = record {
  from = lit "15550001";
  to = lit "60111222";
  body = lit "hello";
  direction = outbound;
  source = api;
  wamid = some (lit "wamid.1");
  at = some 40;
}

store_message_receipt_example :
    (s : StoredMessage) × (db' : Db) × (store_message hello (lit "wamid.r") 50 small_db
      ≡ ok (s, db'))
    × IsStored hello (lit "wamid.r") 50 small_db db' s
unfolding empty_db
store_message_receipt_example =
    store_message_receipt hello (lit "wamid.r") 50 small_db small_db-Numbered refl

abbrev pub hello_row : Message
hello_row = record {
  wamid = lit "wamid.1";
  conversation_id = 1;
  seq = 1;
  direction = outbound;
  source = api;
  from_number = lit "15550001";
  to_number = lit "60111222";
  body = lit "hello";
  created_at = 40;
  sent_at = some 40;
  delivered_at = none;
  read_at = none;
}

abbrev pub used_db : Db
used_db = record small_db {
  conversations =
      record {
        id = 1;
        phone_number_id = lit "MOCK-PN-1";
        customer_number = lit "60111222";
        next_seq = 2;
      }
      ∷ [];
  next_conversation = 2;
  messages = hello_row ∷ [];
}

used_db-Numbered : Numbered used_db
used_db-Numbered = record {
  fresh = (omega arith, tt);
  unique = (refl, tt);
  numbered = (omega arith, tt);
}

abbrev echoing : AutoReply
echoing = record {
  mode = keyword;
  delay_ms = 500;
  rules = record { keyword = lit "price"; reply = lit "10" } ∷ [];
}

set_auto_reply-get_example :
    (db' : Db) × (set_auto_reply (lit "+60 111-222") echoing small_db ≡ ok db')
    × (get_auto_reply (lit "+60 111-222") db' ≡ some echoing)
unfolding get_customer text_eq empty_db digits_only
set_auto_reply-get_example =
    set_auto_reply-get (lit "+60 111-222") echoing small_db refl (omega arith)

abbrev branch_input : BusinessInput
branch_input = record {
  display_number = lit "+1 555-0002";
  label = some (lit "Branch");
  phone_number_id = none;
  waba_id = none;
  token = none;
}

abbrev number_zero : Text → Option ℕ
number_zero t = some 1

abbrev zero_of : Text → ℕ
zero_of t = 0

abbrev branch : BusinessNumber
branch = record {
  phone_number_id = lit "MOCK-PN-2";
  display_number = lit "15550002";
  label = some (lit "Branch");
  token = lit "uuid";
  waba_id = lit "MOCK-WABA-1";
  created_at = 60;
}

abbrev branch_db : Db
branch_db = record small_db { business_numbers = shop ∷ branch ∷ [] }

texts_apart : (s t : Text) → text_eq s t ≡ false → s ≢ t
texts_apart s t off = λ e. let on : text_eq s t ≡ true = rw e (text_eq_refl t) in cc

small_db-Registered : Registered small_db
unfolding empty_db text_eq
small_db-Registered = record {
  business_phones = (record { digits = refl; at_least = omega arith; at_most = omega arith }, tt);
  customer_phones = (record { digits = refl; at_least = omega arith; at_most = omega arith }, tt);
  apart = ((texts_apart shop.display_number ana.number refl, tt), tt);
  few = omega arith;
}

register_business_number-Registered_example :
    Registered branch_db
    × (branch_db.business_numbers ≡ small_db.business_numbers ++ branch ∷ [])
    × (branch.display_number ≡ strip_separators branch_input.display_number)
unfolding register_business_number phone_number check_registration insert_business get_business
    get_customer next_mock_phone_number_id next_mock_number starts_with text_eq is_phone
    strip_separators is_space digits_only decimal highest some_of empty_db
register_business_number-Registered_example =
    register_business_number-Registered number_zero zero_of branch_input (lit "uuid") 60 small_db
      branch branch_db small_db-Registered refl
