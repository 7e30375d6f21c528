-- ===== src/Meta/Validate/Sends.antt =====
-- What meta/validate.ts lets through as a message to send.
use comdove_fake_backend.Base.{
  ltb, is_some, length, is_empty, Text, lit, text_eq, text_eq_refl, strip_separators, is_phone,
  IsPhone, IsPhone-is_phone, ℕ, ◌≤◌, ◌≡◌, refl, subst, true, false, Option, none, some, arith,
}
use comdove_fake_backend.Contract.Json.{Json, string, object, Fields, get}
use comdove_fake_backend.Contract.Types.{BusinessNumber, max_body_length}
use comdove_fake_backend.Meta.Errors.{parse_force_error, normalize_number}
use comdove_fake_backend.Meta.Validate.{
  ValidateInput, send, Lookups, bearer_token, is_token, is_text, fields_of, field_in, text_of,
  recipient, validate_text, validate_typed, validate_body, validate_business, validate_forced,
  validate,
}

-- The conditions of the pipeline, in its order, on a request for a text message.
pub record IsTextRequest (reg : Lookups) (input : ValidateInput) (b : BusinessNumber)
    (to wa_id text : Text) : Type 0 where
  pub fields : Fields
  pub unforced : input.force_error ≡ none
  pub business : reg.get_business input.phone_number_id ≡ some b
  pub by_id : b.phone_number_id ≡ input.phone_number_id
  pub token : bearer_token input.auth ≡ some b.token
  pub body : input.body ≡ some (object fields)
  pub product : get (lit "messaging_product") fields ≡ some (string (lit "whatsapp"))
  pub type : get (lit "type") fields ≡ some (string (lit "text"))
  pub text_fields : Fields
  pub text_object : get (lit "text") fields ≡ some (object text_fields)
  pub text_body : get (lit "body") text_fields ≡ some (string text)
  pub not_empty : is_empty text ≡ false
  pub short : length text ≤ max_body_length
  pub recipient : get (lit "to") fields ≡ some (string to)
  pub number : strip_separators to ≡ wa_id
  pub phone : IsPhone wa_id
  pub customer : is_some (reg.get_customer wa_id) ≡ true

module _ (js_string : Json → Option Text) (reg : Lookups) where
  recipient-sends :
      (b : BusinessNumber) (to wa_id text : Text) (counter : ℕ)
      → strip_separators to ≡ wa_id
      → IsPhone wa_id
      → is_some (reg.get_customer wa_id) ≡ true
      → recipient js_string reg b (some (string to)) text counter ≡ (send b to wa_id text, counter)
  unfolding recipient normalize_number text_of
  recipient-sends b to wa_id text counter same phone there =
      let plausible : is_phone (strip_separators to) ≡ true =
        rw same (IsPhone-is_phone wa_id phone) in
      rw (recipient, normalize_number, plausible, same, there) refl

  -- A request for a text message that meets the conditions of the pipeline is accepted with its
  -- recipient's digits and its text, whatever its other fields are, and no trace id is used.
  pub validate-sends :
      (input : ValidateInput) (b : BusinessNumber) (to wa_id text : Text) (counter : ℕ)
      → IsTextRequest reg input b to wa_id text
      → validate js_string reg input counter ≡ (send b to wa_id text, counter)
  unfolding validate validate_forced validate_business validate_body validate_typed validate_text
      parse_force_error is_token is_text fields_of field_in text_of text_eq
  validate-sends input b to wa_id text counter r =
      let short : ltb max_body_length (length text) ≡ false = let le = r.short in ground arith in
      let same : text_eq b.phone_number_id input.phone_number_id ≡ true =
        subst (λ t. text_eq b.phone_number_id t ≡ true) r.by_id (text_eq_refl b.phone_number_id) in
      rw
        (
          validate,
          validate_forced,
          r.unforced,
          validate_business,
          r.business,
          same,
          r.token,
          text_eq_refl b.token,
          r.body,
          validate_body,
          r.product,
          r.type,
          validate_typed,
          validate_text,
          r.text_object,
          r.text_body,
          r.not_empty,
          short,
          r.recipient,
        )
        (recipient-sends b to wa_id text counter r.number r.phone r.customer)
