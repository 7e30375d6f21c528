-- ===== src/Checks/Sending.antt =====
-- A text message through the pipeline of meta/validate.ts.
use comdove_fake_backend.Base.{
  Option, if◌then◌else◌, Text, lit, text_eq, is_space, strip_separators, trim_start, trim_end, trim,
  ℕ, ◌≡◌, refl, none, some, arith,
}
use comdove_fake_backend.Contract.Json.{Json, string, object, Fields, end, field, get}
use comdove_fake_backend.Meta.Validate.{
  ValidateInput, ValidateResult, send, Lookups, after_prefix, credentials, bearer_token, validate,
}
use comdove_fake_backend.Meta.Validate.Admits.{IsAdmitted, validate-IsAdmitted}
use comdove_fake_backend.Meta.Validate.Sends.{IsTextRequest, validate-sends}
use comdove_fake_backend.Checks.Storing.{shop, ana}

abbrev one_shop : Lookups
one_shop = record {
  get_business = λ id. if text_eq id (lit "MOCK-PN-1") then some shop else none;
  get_customer = λ n. if text_eq n (lit "60111222") then some ana else none;
  get_message = λ w. none;
}

abbrev text_fields : Fields
text_fields = field (lit "body") (string (lit "hello")) end

abbrev message_fields : Fields
message_fields = field (lit "messaging_product") (string (lit "whatsapp")) (
    field (lit "type") (string (lit "text"))
      (field (lit "to") (string (lit "+60 111-222")) (field (lit "text") (object text_fields) end)))

abbrev text_request : ValidateInput
text_request = record {
  phone_number_id = lit "MOCK-PN-1";
  auth = some (lit "bearer t ");
  force_error = none;
  body = some (object message_fields);
}

abbrev no_string : Json → Option Text
no_string v = none

text_request-IsTextRequest :
    IsTextRequest one_shop text_request shop (lit "+60 111-222") (lit "60111222") (lit "hello")
unfolding text_eq get bearer_token after_prefix credentials trim trim_start trim_end is_space
    strip_separators
text_request-IsTextRequest = record {
  fields = message_fields;
  unforced = refl;
  business = refl;
  by_id = refl;
  token = refl;
  body = refl;
  product = refl;
  type = refl;
  text_fields = text_fields;
  text_object = refl;
  text_body = refl;
  not_empty = refl;
  short = omega arith;
  recipient = refl;
  number = refl;
  phone = record { digits = refl; at_least = omega arith; at_most = omega arith };
  customer = refl;
}

validate-sends_example :
    ◌≡◌ {A = ValidateResult × ℕ}
      (validate no_string one_shop text_request 4)
      (send shop (lit "+60 111-222") (lit "60111222") (lit "hello"), 4)
validate-sends_example =
    validate-sends no_string one_shop text_request shop (lit "+60 111-222") (lit "60111222")
      (lit "hello") 4 text_request-IsTextRequest

validate-IsAdmitted_example :
    IsAdmitted one_shop text_request shop (lit "+60 111-222") (lit "60111222") × ◌≡◌ {A = ℕ} 4 4
validate-IsAdmitted_example =
    validate-IsAdmitted no_string one_shop shop (lit "+60 111-222") (lit "60111222") (lit "hello") 4
      text_request 4
      (validate-sends no_string one_shop text_request shop (lit "+60 111-222") (lit "60111222")
        (lit "hello") 4 text_request-IsTextRequest)
