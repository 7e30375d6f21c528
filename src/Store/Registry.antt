-- ===== src/Store/Registry.antt =====
-- The business numbers and the customers of core/registry.ts.
use comdove_fake_backend.Base.{
  leb, ◌==◌, if◌then◌else◌, is_some, or_else, length, keep, find, any, drop, Text, lit, text_eq,
  strip_separators, is_phone, digits_only, ℕ, ◌+◌, ◌-◌, max, Bool, true, false, not, ◌&&◌, ◌||◌,
  Option, none, some, List, [], ◌∷◌, ◌++◌, map,
}
use comdove_fake_backend.Contract.Types.{BusinessNumber, Customer}
use comdove_fake_backend.Contract.Decimal.{decimal}
use comdove_fake_backend.Store.Tables.{
  Db, bad_phone, too_many_business, display_taken, id_taken, is_customer, constraint_failed, Result,
  ok, throw, ◌>>=◌, ◌>>◌, refuse,
}

-- `phoneNumber`
unfoldable pub phone_number : Text → Text → Result Text
phone_number raw what =
    let cleaned = strip_separators raw in
    if is_phone cleaned then ok cleaned else throw (bad_phone what raw)

-- SQL leaves open which row `get` returns where several match: here the oldest.
unfoldable pub get_business : Text → Db → Option BusinessNumber
get_business key db =
    find (λ b. text_eq b.phone_number_id key || text_eq b.display_number (digits_only key))
      db.business_numbers

unfoldable pub get_customer : Text → Db → Option Customer
get_customer number db = find (λ c. text_eq c.number (digits_only number)) db.customers

pub record BusinessInput : Type 0 where
  pub display_number : Text
  pub label : Option Text
  pub phone_number_id : Option Text
  pub waba_id : Option Text
  pub token : Option Text

abbrev pub max_business_numbers : ℕ
max_business_numbers = 10

-- `LIKE 'MOCK-PN-%'`, which ignores the case of ASCII letters.
abbrev upper : ℕ → ℕ
upper c = if leb b'a' c && leb c b'z' then c - 32 else c

unfoldable pub starts_with : Text → Text → Bool
starts_with [] s = true
starts_with (p ∷ ps) [] = false
starts_with (p ∷ ps) (c ∷ s) = upper c == p && starts_with ps s

abbrev pub mock_prefix : Text
mock_prefix = lit "MOCK-PN-"

unfoldable pub highest : List ℕ → ℕ
highest [] = 0
highest (n ∷ ns) = max n (highest ns)

unfoldable pub some_of : List (Option ℕ) → List ℕ
some_of [] = []
some_of (none ∷ os) = some_of os
some_of (some n ∷ os) = n ∷ some_of os

abbrev pub has_id : Option Text → Db → Bool
has_id none db = false
has_id (some []) db = false
has_id (some id) db = any (λ b. text_eq b.phone_number_id id) db.business_numbers

abbrev pub same_display : Option BusinessNumber → Text → Bool
same_display none n = false
same_display (some b) n = text_eq b.display_number n

-- The tests of `registerBusinessNumber`, in their order.
unfoldable pub check_registration : Text → BusinessInput → Db → Result (Unit {0})
check_registration display input db = do
  refuse (leb max_business_numbers (length db.business_numbers)) too_many_business
  refuse (same_display (get_business display db) display) (display_taken display)
  refuse (has_id input.phone_number_id db) (id_taken (or_else input.phone_number_id []))
  refuse (is_some (get_customer display db)) (is_customer display)

abbrev pub new_business : BusinessInput → Text → Text → Text → ℕ → BusinessNumber
new_business input display id generated now = record {
  phone_number_id = id;
  display_number = display;
  label = input.label;
  token = or_else input.token generated;
  waba_id = or_else input.waba_id (lit "MOCK-WABA-1");
  created_at = now;
}

unfoldable pub delete_business_number : Text → Db → Bool × Db
delete_business_number id db = (
  any (λ b. text_eq b.phone_number_id id) db.business_numbers,
  record db {
    business_numbers = keep (λ b. not (text_eq b.phone_number_id id)) db.business_numbers;
  },
)

unfoldable pub set_online : Text → Bool → Db → Db
set_online number online db = record db {
  customers =
      map (λ c. if text_eq c.number (digits_only number) then record c { online = online } else c)
        db.customers;
}

-- `number_of` is `Number(s)` where that is a natural number, and `cast_integer` is SQLite's
-- `CAST(s AS INTEGER)`, negative ones as 0.
module _ (number_of : Text → Option ℕ) (cast_integer : Text → ℕ) where
  unfoldable pub next_mock_number : Db → ℕ
  next_mock_number db =
      let ids = keep (starts_with mock_prefix) (map (λ b. b.phone_number_id) db.business_numbers) in
      let used = keep (starts_with mock_prefix) (map (λ c. c.phone_number_id) db.conversations) in
      max (highest (some_of (map (λ id. number_of (drop 8 id)) ids)))
        (highest (map (λ id. cast_integer (drop 8 id)) used))
      + 1

  -- `nextMockPhoneNumberId`
  unfoldable pub next_mock_phone_number_id : Db → Text
  unfolding next_mock_number
  next_mock_phone_number_id db = mock_prefix ++ decimal (next_mock_number db)

  -- The INSERT, with its PRIMARY KEY and UNIQUE constraints.
  unfoldable pub insert_business : BusinessNumber → Db → Result Db
  insert_business b db = do
    refuse
        (any
          (λ x.
            text_eq x.phone_number_id b.phone_number_id
            || text_eq x.display_number b.display_number)
          db.business_numbers)
        constraint_failed
    ok (record db { business_numbers = db.business_numbers ++ b ∷ [] })

  -- `generated` is the token made of a random UUID.
  unfoldable pub register_business_number :
      BusinessInput → (generated : Text) → (now : ℕ) → Db → Result (BusinessNumber × Db)
  unfolding insert_business check_registration
  register_business_number input generated now db = do
    display ← phone_number input.display_number (lit "display_number")
    check_registration display input db
    let b =
        new_business input display (or_else input.phone_number_id (next_mock_phone_number_id db))
          generated now
    db' ← insert_business b db
    ok (b, db')
