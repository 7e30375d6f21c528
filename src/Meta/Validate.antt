-- ===== src/Meta/Validate.antt =====
-- meta/validate.ts. `Lookups` is the part of the registry that it reads; `js_string` is `String`.
pub mod Sends
pub mod Safe
pub mod Admits
use comdove_fake_backend.Base.{
  ltb, leb, ◌==◌, if◌then◌else◌, is_some, or_else, length, any, drop, is_empty, Text, lit, text_eq,
  is_space, trim_start, trim, ℕ, ◌-◌, Bool, true, false, not, ◌&&◌, ◌||◌, Option, none, some, List,
  [], ◌∷◌, ◌++◌,
}
use comdove_fake_backend.Contract.Json.{Json, string, array, object, Fields, get, items}
use comdove_fake_backend.Contract.Types.{
  BusinessNumber, Customer, StoredMessage, is_outbound, max_body_length,
}
use comdove_fake_backend.Meta.Errors.{
  MetaErrorKind, unknown_object, invalid_token, invalid_param, not_implemented, undeliverable,
  MetaError, MetaErrorContext, no_context, meta_error, Forced, forces, inherited, parse_force_error,
  normalize_number,
}

pub record ValidateInput : Type 0 where
  pub phone_number_id : Text
  pub auth : Option Text
  pub force_error : Option Text
  pub body : Option Json  -- `none` is undefined

pub data ValidateResult : Type 0 where
  send : (business : BusinessNumber) (to wa_id text : Text) → ValidateResult
  read : (business : BusinessNumber) (message_id : Text) → ValidateResult
  error : MetaError → (forced : Bool) → ValidateResult
  crashed : ValidateResult  -- it throws: a TypeError that no caller catches

pub record Lookups : Type 0 where
  pub get_business : Text → Option BusinessNumber
  pub get_customer : Text → Option Customer
  pub get_message : Text → Option StoredMessage

abbrev upper : ℕ → ℕ
upper c = if leb b'a' c && leb c b'z' then c - 32 else c

-- `\n`, `\r` and the separators that `.` does not match
abbrev is_line_end : ℕ → Bool
is_line_end c = c == 10 || c == 13 || c == 0x2028 || c == 0x2029

-- What is left after a prefix, upper and lower case alike.
unfoldable pub after_prefix : Text → Text → Option Text
after_prefix [] s = some s
after_prefix (p ∷ ps) [] = none
after_prefix (p ∷ ps) (c ∷ s) = if upper c == upper p then after_prefix ps s else none

-- `\s+(.+)$` from here on, trimmed: spaces alone match where there are two, the last no line end.
unfoldable pub credentials : Text → Option Text
unfolding trim_start trim
credentials [] = none
credentials (c ∷ s) =
    let rest = trim_start s in
    if not (is_space c)
    then none
    else if is_empty rest
    then (if is_empty s || any is_line_end (drop (length s - 1) s) then none else some [])
    else (if any is_line_end rest then none else some (trim rest))

abbrev from_prefix : Option Text → Option Text
from_prefix none = none
from_prefix (some s) = credentials s

unfoldable pub bearer_token : Option Text → Option Text
unfolding after_prefix credentials
bearer_token none = none
bearer_token (some auth) = from_prefix (after_prefix (lit "Bearer") auth)

unfoldable pub is_token : Option Text → Text → Bool
is_token none t = false
is_token (some s) t = text_eq s t

-- `v === 'text'` of a field
unfoldable pub is_text : Option Json → Text → Bool
is_text (some (string s)) t = text_eq s t
is_text v t = false

unfoldable pub fields_of : Option Json → Option Fields
fields_of (some (object o)) = some o
fields_of v = none

-- A field of what may be no object.
unfoldable pub field_in : Text → Option Fields → Option Json
field_in k none = none
field_in k (some o) = get k o

unfoldable pub text_of : Option Json → Option Text
text_of (some (string s)) = some s
text_of v = none

unfoldable pub items_of : Option Json → List Json
items_of (some (array vs)) = items vs
items_of v = []

unfoldable pub text_params : List Json → List Text
unfolding is_text field_in fields_of text_of
text_params [] = []
text_params (p ∷ ps) =
    let rest = text_params ps in
    let o = fields_of (some p) in
    if is_text (field_in (lit "type") o) (lit "text")
    then elim (text_of (field_in (lit "text") o)) [ none ↦ rest | some t ↦ t ∷ rest ]
    else rest

unfoldable pub component_params : List Json → List Text
unfolding text_params items_of field_in fields_of
component_params [] = []
component_params (c ∷ cs) =
    text_params (items_of (field_in (lit "parameters") (fields_of (some c)))) ++ component_params cs

-- `params.join(' ')` behind a space, for one or more
unfoldable pub joined_params : List Text → Text
joined_params [] = []
joined_params (p ∷ ps) = lit " " ++ (p ++ joined_params ps)

unfoldable pub template_text : Option Fields → Text
unfolding component_params joined_params text_of field_in items_of
template_text t =
    lit "[Template: "
    ++ (or_else (text_of (field_in (lit "name") t)) (lit "unknown")
        ++ (lit "]" ++ joined_params (component_params (items_of (field_in (lit "components") t)))))

-- `js_string` is `String(v)`, which throws on an object whose `toString` and `valueOf` are no functions.
module _ (js_string : Json → Option Text) (reg : Lookups) where
  -- A result, and the trace counter after it.
  abbrev pub Outcome : Type 0
  Outcome = ℕ → ValidateResult × ℕ

  unfoldable pub fail : MetaErrorKind → MetaErrorContext → (forced : Bool) → Outcome
  fail kind c forced counter = let (e, n) = meta_error kind c counter in (error e forced, n)

  abbrev pub crash : Outcome
  crash counter = (crashed, counter)

  abbrev pub type_context : Text → MetaErrorContext
  type_context t = record no_context { what = some (lit "message type \"" ++ (t ++ lit "\"")) }

  unfoldable pub invalid : Text → Outcome
  unfolding fail
  invalid detail = fail invalid_param (record no_context { detail = some detail }) false

  -- `to`, and the recipient: the steps that a template and a text share.
  unfoldable pub recipient : BusinessNumber → Option Json → Text → Outcome
  unfolding fail invalid text_of normalize_number
  recipient b none text = invalid (lit "to is required")
  recipient b (some v) text = elim (text_of (some v)) [
    | none ↦ invalid (lit "to must be a phone number")
    | some to ↦ elim (normalize_number to) [
      | none ↦ invalid (lit "to must be a phone number")
      | some wa_id ↦
          if is_some (reg.get_customer wa_id)
          then (λ counter. (send b to wa_id text, counter))
          else fail undeliverable no_context false
    ]
  ]

  unfoldable pub validate_text : BusinessNumber → Fields → Outcome
  unfolding invalid recipient text_of field_in fields_of
  validate_text b o = elim (text_of (field_in (lit "body") (fields_of (get (lit "text") o)))) [
    | none ↦ invalid (lit "text.body is required")
    | some text ↦
        if is_empty text
        then invalid (lit "text.body is required")
        else if ltb max_body_length (length text)
        then invalid (lit "text.body must be at most 4096 characters")
        else recipient b (get (lit "to") o) text
  ]

  abbrev pub is_inbound_of : BusinessNumber → StoredMessage → Bool
  is_inbound_of b m = not (is_outbound m.direction) && text_eq m.phone_number_id b.phone_number_id

  unfoldable pub find_message : Option Text → Option StoredMessage
  find_message none = none
  find_message (some id) = reg.get_message id

  -- The end of the branch that reads `status`.
  unfoldable pub validate_found : BusinessNumber → Option StoredMessage → Outcome
  unfolding invalid
  validate_found b none = invalid (lit "message_id is not an inbound message for this phone number")
  validate_found b (some m) =
      if is_inbound_of b m
      then (λ counter. (read b m.wamid, counter))
      else invalid (lit "message_id is not an inbound message for this phone number")

  unfoldable pub validate_read : BusinessNumber → Fields → Outcome
  unfolding invalid is_text text_of find_message validate_found
  validate_read b o =
      if is_text (get (lit "status") o) (lit "read")
      then validate_found b (find_message (text_of (get (lit "message_id") o)))
      else invalid (lit "status must be \"read\"")

  unfoldable pub validate_typed : BusinessNumber → Json → Fields → Outcome
  unfolding fail recipient validate_text template_text is_text fields_of
  validate_typed b type o =
      if is_text (some type) (lit "template")
      then recipient b (get (lit "to") o) (template_text (fields_of (get (lit "template") o)))
      else if is_text (some type) (lit "text")
      then validate_text b o
      else elim (js_string type) [
        | none ↦ crash
        | some t ↦ fail not_implemented (type_context t) false
      ]

  unfoldable pub validate_body : BusinessNumber → Option Fields → Outcome
  unfolding invalid validate_read validate_typed is_text
  validate_body b none = invalid (lit "request body must be a JSON object")
  validate_body b (some o) =
      if not (is_text (get (lit "messaging_product") o) (lit "whatsapp"))
      then invalid (lit "messaging_product must be \"whatsapp\"")
      else elim (get (lit "type") o) [
        | some type ↦ validate_typed b type o
        | none ↦
            if is_some (get (lit "status") o)
            then validate_read b o
            else invalid (lit "type is required")
      ]

  abbrev forced_context : Text → Option Text → MetaErrorContext
  forced_context id detail = record no_context { id = some id; detail = detail }

  unfoldable pub validate_business : ValidateInput → Option BusinessNumber → Outcome
  unfolding fail validate_body bearer_token is_token fields_of
  validate_business input none =
      fail unknown_object (record no_context { id = some input.phone_number_id }) false
  validate_business input (some b) =
      if not (text_eq b.phone_number_id input.phone_number_id)
      then fail unknown_object (record no_context { id = some input.phone_number_id }) false
      else if is_token (bearer_token input.auth) b.token
      then validate_body b (fields_of input.body)
      else fail invalid_token no_context false

  unfoldable pub validate_forced : ValidateInput → Option Forced → Outcome
  unfolding fail validate_business
  validate_forced input (some inherited) = crash
  validate_forced input (some (forces kind detail)) =
      fail kind (forced_context input.phone_number_id detail) true
  validate_forced input none = validate_business input (reg.get_business input.phone_number_id)

  unfoldable pub validate : ValidateInput → Outcome
  unfolding validate_forced parse_force_error
  validate input = validate_forced input (parse_force_error input.force_error)
