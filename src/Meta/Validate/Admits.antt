-- ===== src/Meta/Validate/Admits.antt =====
-- What a message that meta/validate.ts lets through has shown.
use comdove_fake_backend.Base.{
  Option-cases, is_some, trim, Text, strip_separators, IsPhone, ℕ, ◌≡◌, refl, ap, subst, ◌∙◌, inl,
  inr, true, false, Option, none, some,
}
use comdove_fake_backend.Contract.Json.{Json}
use comdove_fake_backend.Contract.Types.{BusinessNumber}
use comdove_fake_backend.Meta.Errors.{
  unknown_object, no_context, Forced, forces, inherited, forced, forceable, parse_force_error,
}
use comdove_fake_backend.Meta.Validate.{
  ValidateInput, send, Lookups, bearer_token, is_token, validate_business, validate_forced,
  validate,
}
use comdove_fake_backend.Meta.Validate.Safe.{
  Sent, fail-Sent, crash-Sent, Addressed, validate_business-Sent,
}

pub record IsAdmitted (reg : Lookups) (input : ValidateInput) (b : BusinessNumber) (to wa_id : Text)
    : Type 0 where
  pub unforced : input.force_error ≡ none
  pub business : reg.get_business input.phone_number_id ≡ some b
  pub by_id : b.phone_number_id ≡ input.phone_number_id
  pub token : is_token (bearer_token input.auth) b.token ≡ true
  pub number : strip_separators to ≡ wa_id
  pub phone : IsPhone wa_id
  pub customer : is_some (reg.get_customer wa_id) ≡ true

module _ (js_string : Json → Option Text) (reg : Lookups) (b : BusinessNumber)
    (to wa_id text : Text) (n : ℕ) where
  header-Sent :
      (input : ValidateInput) (f : Forced) (counter : ℕ)
      → Sent js_string reg b to wa_id text n (validate_forced js_string reg input (some f) counter)
      → ⊥
  unfolding validate_forced
  header-Sent input inherited counter h = crash-Sent js_string reg b to wa_id text n counter h
  header-Sent input (forces kind detail) counter h =
      fail-Sent js_string reg b to wa_id text n kind _ true counter h

  forced-Sent :
      (input : ValidateInput) (header : Option Text) (counter : ℕ)
      → Sent js_string reg b to wa_id text n
          (validate_forced js_string reg input (parse_force_error header) counter)
      → (header ≡ none)
        × Sent js_string reg b to wa_id text n
            (validate_business js_string reg input (reg.get_business input.phone_number_id) counter)
  unfolding parse_force_error validate_forced
  forced-Sent input none counter h = (refl, h)
  forced-Sent input (some t) counter h =
      absurd (header-Sent input (forced (trim t) (forceable (trim t))) counter h)

  -- A message is let through only where no error is forced, the address is the id of a registered
  -- business number and its token is shown, and the recipient's digits are a phone number of a
  -- customer; and then no trace id is used.
  pub validate-IsAdmitted :
      (input : ValidateInput) (counter : ℕ)
      → validate js_string reg input counter ≡ (send b to wa_id text, n)
      → IsAdmitted reg input b to wa_id × (counter ≡ n)
  unfolding validate validate_business Addressed
  validate-IsAdmitted input counter h =
      let (unforced, sent) = forced-Sent input input.force_error counter h in
      elim (Option-cases (reg.get_business input.phone_number_id)) [
        | inl e ↦ absurd (
            fail-Sent js_string reg b to wa_id text n unknown_object
              (record no_context { id = some input.phone_number_id }) false counter
              (rw (← sent, e, validate_business) refl))
        | inr (b', e) ↦
            let ((by_id, token), (same, digits, phone, customer, unused)) =
              validate_business-Sent js_string reg b to wa_id text n input b' counter
                (rw (← sent, e) refl) in
            (
              record {
                unforced = unforced;
                business = e ∙ ap (λ (x : BusinessNumber). some x) same;
                by_id = subst (λ x. x.phone_number_id ≡ input.phone_number_id) same by_id;
                token = subst (λ x. is_token (bearer_token input.auth) x.token ≡ true) same token;
                number = digits;
                phone = phone;
                customer = customer;
              },
              unused,
            )
      ]
