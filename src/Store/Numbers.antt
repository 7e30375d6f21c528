-- ===== src/Store/Numbers.antt =====
-- `registerBusinessNumber` of core/registry.ts and the numbers that are registered.
use comdove_fake_backend.Base.{
  leb, Option-cases, is_some, or_else, length, find, length-append, All, All-append, Text, lit,
  text_eq, text_eq_refl, strip_separators, is_phone, digits_only, IsPhone, is_phone-IsPhone,
  digits_only-IsPhone, ℕ, ◌≤◌, ◌<◌, ◌≡◌, refl, sym, subst, ◌∙◌, ◌≢◌, inl, inr, true, false, ◌||◌,
  Option, none, List, [], ◌∷◌, ◌++◌, arith,
}
use comdove_fake_backend.Contract.Types.{BusinessNumber, Customer}
use comdove_fake_backend.Store.Tables.{
  Db, too_many_business, display_taken, id_taken, is_customer, Result, ok, ◌>>=◌, refuse_all-ok,
  bind-ok,
}
use comdove_fake_backend.Store.Registry.{
  phone_number, get_business, get_customer, BusinessInput, max_business_numbers, has_id,
  same_display, check_registration, new_business, next_mock_phone_number_id, insert_business,
  register_business_number,
}

-- Every number is stored as 8 to 15 digits, no number is both a business's and a customer's, and
-- there are at most ten business numbers.
pub record Registered (db : Db) : Type 0 where
  pub business_phones : All (λ b. IsPhone b.display_number) db.business_numbers
  pub customer_phones : All (λ c. IsPhone c.number) db.customers
  pub apart : All (λ c. All (λ b. b.display_number ≢ c.number) db.business_numbers) db.customers
  pub few : length db.business_numbers ≤ max_business_numbers

phone_number-IsPhone : (raw what n : Text) → phone_number raw what ≡ ok n → IsPhone n
unfolding phone_number
phone_number-IsPhone raw what n h =
    let yes : is_phone (strip_separators raw) ≡ true = ground arith in
    let same : strip_separators raw ≡ n = ground arith in
    subst IsPhone same (is_phone-IsPhone _ yes)

-- A number that `getCustomer` does not find is no customer's.
not_customer :
    (n : Text) (cs : List Customer)
    → find (λ c. text_eq c.number n) cs ≡ none
    → All (λ c. n ≢ c.number) cs
not_customer n [] h = tt
not_customer n (c ∷ cs) h =
    let off : text_eq c.number n ≡ false = ground arith in
    (
      λ e. let on : text_eq c.number n ≡ true = rw (← e) (text_eq_refl n) in cc,
      not_customer n cs (ground arith),
    )

-- A number that `getBusiness` does not find is no business's.
not_business :
    (n : Text) (bs : List BusinessNumber)
    → digits_only n ≡ n
    → find (λ b. text_eq b.phone_number_id n || text_eq b.display_number (digits_only n)) bs ≡ none
    → All (λ b. b.display_number ≢ n) bs
not_business n [] d h = tt
not_business n (b ∷ bs) d h =
    let off : text_eq b.display_number (digits_only n) ≡ false = ground arith in
    (
      λ e.
          let on : text_eq b.display_number (digits_only n) ≡ true = rw (d, e) (text_eq_refl n) in
          cc,
      not_business n bs d (ground arith),
    )

apart-business :
    (n : Text) (bs : List BusinessNumber) (b : BusinessNumber) (cs : List Customer)
    → b.display_number ≡ n
    → All (λ c. n ≢ c.number) cs
    → All (λ c. All (λ x. x.display_number ≢ c.number) bs) cs
    → All (λ c. All (λ x. x.display_number ≢ c.number) (bs ++ b ∷ [])) cs
apart-business n bs b [] e new old = tt
apart-business n bs b (c ∷ cs) e new old = (
  All-append (λ x. x.display_number ≢ c.number) bs (b ∷ []) old.0 (rw e (new.0), tt),
  apart-business n bs b cs e new.1 old.1,
)

-- What the tests of a registration leave.
check_registration-ok :
    (n : Text) (input : BusinessInput) (db : Db)
    → check_registration n input db ≡ ok tt
    → (length db.business_numbers < max_business_numbers)
      × (find (λ c. text_eq c.number (digits_only n)) db.customers ≡ none)
unfolding check_registration get_customer
check_registration-ok n input db h =
    let (room, _, _, free) =
      refuse_all-ok (leb max_business_numbers (length db.business_numbers))
        (same_display (get_business n db) n) (has_id input.phone_number_id db)
        (is_some (get_customer n db)) too_many_business (display_taken n)
        (id_taken (or_else input.phone_number_id [])) (is_customer n) h in
    (
      ground arith,
      elim (Option-cases (get_customer n db)) [
        | inl e ↦ e
        | inr (c, e) ↦ let on : is_some (get_customer n db) ≡ true = rw e refl in cc
      ],
    )

-- A number added at the end keeps what holds of the numbers.
add_business-Registered :
    (b : BusinessNumber) (db : Db)
    → IsPhone b.display_number
    → length db.business_numbers < max_business_numbers
    → find (λ c. text_eq c.number (digits_only b.display_number)) db.customers ≡ none
    → Registered db
    → Registered (record db { business_numbers = db.business_numbers ++ b ∷ [] })
add_business-Registered b db phone room free v = record {
  business_phones =
      All-append (λ x. IsPhone x.display_number) db.business_numbers (b ∷ []) v.business_phones
        (phone, tt);
  customer_phones = v.customer_phones;
  apart =
      apart-business b.display_number db.business_numbers b db.customers refl
        (not_customer b.display_number db.customers (
          subst (λ t. find (λ c. text_eq c.number t) db.customers ≡ none)
            (digits_only-IsPhone b.display_number phone) free))
        v.apart;
  few = omega (arith, length-append db.business_numbers (b ∷ []));
}

module _ (number_of : Text → Option ℕ) (cast_integer : Text → ℕ) where
  insert_business-ok :
      (b : BusinessNumber) (db db' : Db)
      → insert_business number_of cast_integer b db ≡ ok db'
      → record db { business_numbers = db.business_numbers ++ b ∷ [] } ≡ db'
  unfolding insert_business
  insert_business-ok b db db' h = ground arith

  finished-ok :
      (b b' : BusinessNumber) (db db' : Db)
      → ◌≡◌ {A = Result (BusinessNumber × Db)}
          (insert_business number_of cast_integer b db >>= λ d. ok (b, d))
          (ok (b', db'))
      → (b ≡ b') × (record db { business_numbers = db.business_numbers ++ b ∷ [] } ≡ db')
  finished-ok b b' db db' h =
      let (d, inserted, e) = bind-ok (insert_business number_of cast_integer b db) _ _ h in
      let same : d ≡ db' = ground arith in (ground arith, insert_business-ok b db d inserted ∙ same)

  -- A business number that is registered keeps the numbers well formed and apart, within their
  -- limit, and is the new row at the end of the table, with the cleaned number.
  pub register_business_number-Registered :
      (input : BusinessInput) (generated : Text) (now : ℕ) (db : Db) (b : BusinessNumber) (db' : Db)
      → Registered db
      → register_business_number number_of cast_integer input generated now db ≡ ok (b, db')
      → Registered db'
        × (db'.business_numbers ≡ db.business_numbers ++ b ∷ [])
        × (b.display_number ≡ strip_separators input.display_number)
  unfolding register_business_number phone_number
  register_business_number-Registered input generated now db b db' v h =
      let (n, clean, h₁) =
        bind-ok (phone_number input.display_number (lit "display_number")) _ _ h in
      let (u, checked, h₂) = bind-ok (check_registration n input db) _ _ h₁ in
      let (room, free) = check_registration-ok n input db checked in
      let id =
        or_else input.phone_number_id (next_mock_phone_number_id number_of cast_integer db) in
      let made = new_business input n id generated now in
      let (same, grown) = finished-ok made b db db' h₂ in
      let stripped : strip_separators input.display_number ≡ n = ground arith in
      rw (← grown, ← same)
        (
          add_business-Registered made db
              (phone_number-IsPhone input.display_number (lit "display_number") n clean) room free
              v,
          refl,
          sym stripped,
        )
