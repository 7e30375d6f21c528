-- ===== src/Meta/Validate/Safe.antt =====
-- Nothing but what meta/validate.ts checks is let through as a message to send.
use comdove_fake_backend.Base.{
  ltb, if◌then◌else◌, Bool-cases, Option-cases, is_some, length, is_empty, Text, lit, text_eq,
  text_eq_sound, strip_separators, is_phone, IsPhone, is_phone-IsPhone, ℕ, ◌≡◌, refl, ap, inl, inr,
  Bool, true, false, Option, none, some,
}
use comdove_fake_backend.Contract.Json.{Json, string, Fields, get}
use comdove_fake_backend.Contract.Types.{BusinessNumber, StoredMessage, max_body_length}
use comdove_fake_backend.Meta.Errors.{
  MetaErrorKind, unknown_object, invalid_token, not_implemented, undeliverable, MetaErrorContext,
  no_context, meta_error, normalize_number,
}
use comdove_fake_backend.Meta.Validate.{
  ValidateInput, ValidateResult, send, read, error, crashed, type_context, Lookups, bearer_token,
  is_token, is_text, fields_of, field_in, text_of, template_text, fail, invalid, recipient,
  validate_text, is_inbound_of, find_message, validate_found, validate_read, validate_typed,
  validate_body, validate_business,
}

module _ (js_string : Json → Option Text) (reg : Lookups) where
  module _ (b : BusinessNumber) (to wa_id text : Text) (n : ℕ) where
    abbrev pub Sent : ValidateResult × ℕ → Type 0
    Sent r = r ≡ (send b to wa_id text, n)

    -- What the last step leaves of a request of business `b'`.
    abbrev pub Checked : BusinessNumber → ℕ → Type 0
    Checked b' counter =
        (b' ≡ b)
        × (strip_separators to ≡ wa_id)
        × IsPhone wa_id
        × (is_some (reg.get_customer wa_id) ≡ true)
        × (counter ≡ n)

    pub fail-Sent :
        (kind : MetaErrorKind) (c : MetaErrorContext) (forced : Bool) (counter : ℕ)
        → Sent (fail js_string reg kind c forced counter)
        → ⊥
    unfolding fail
    fail-Sent kind c forced counter h =
        let e : error (meta_error kind c counter).0 forced ≡ send b to wa_id text =
          ap (λ (x : ValidateResult × ℕ). x.0) h in
        cc

    pub crash-Sent : (counter : ℕ) → Sent (crashed, counter) → ⊥
    crash-Sent counter h =
        let e : crashed ≡ send b to wa_id text = ap (λ (x : ValidateResult × ℕ). x.0) h in cc

    invalid-Sent : (detail : Text) (counter : ℕ) → Sent (invalid js_string reg detail counter) → ⊥
    unfolding invalid
    invalid-Sent detail counter h = fail-Sent _ _ _ counter h

    same_send :
        (b' : BusinessNumber) (to' wa_id' text' : Text) (counter : ℕ)
        → Sent (send b' to' wa_id' text', counter)
        → (b' ≡ b) × (to' ≡ to) × (wa_id' ≡ wa_id) × (counter ≡ n)
    same_send b' to' wa_id' text' counter h =
        let e : send b' to' wa_id' text' ≡ send b to wa_id text =
          ap (λ (x : ValidateResult × ℕ). x.0) h in
        (cc, cc, cc, ap (λ (x : ValidateResult × ℕ). x.1) h)

    recipient_text-Sent :
        (b' : BusinessNumber) (s text' : Text) (counter : ℕ)
        → Sent (recipient js_string reg b' (some (string s)) text' counter)
        → Checked b' counter
    unfolding recipient normalize_number text_of
    recipient_text-Sent b' s text' counter h = elim (Bool-cases (is_phone (strip_separators s))) [
      | inr e ↦ absurd (
          invalid-Sent (lit "to must be a phone number") counter
            (rw (← h, recipient, normalize_number, e) refl))
      | inl e ↦ elim (Bool-cases (is_some (reg.get_customer (strip_separators s)))) [
        | inr c ↦ absurd (
            fail-Sent undeliverable no_context false counter
              (rw (← h, recipient, normalize_number, e, c) refl))
        | inl c ↦
            let (same, to_same, wa_same, n_same) =
              same_send b' s (strip_separators s) text' counter
                (rw (← h, recipient, normalize_number, e, c) refl) in
            (
              same,
              rw (← to_same) wa_same,
              rw (← wa_same) (is_phone-IsPhone (strip_separators s) e),
              rw (← wa_same) c,
              n_same,
            )
      ]
    ]

    recipient-Sent :
        (b' : BusinessNumber) (v : Option Json) (text' : Text) (counter : ℕ)
        → Sent (recipient js_string reg b' v text' counter)
        → Checked b' counter
    unfolding recipient text_of
    recipient-Sent b' none text' counter h = absurd (invalid-Sent _ counter h)
    recipient-Sent b' (some (string s)) text' counter h = recipient_text-Sent b' s text' counter h
    recipient-Sent b' (some _) text' counter h = absurd (invalid-Sent _ counter h)

    -- The end of `validate` for a text, where the text is there and fits.
    text_found-Sent :
        (b' : BusinessNumber) (v : Option Json) (text' : Text) (counter : ℕ)
        → Sent (
            (if is_empty text'
                then invalid js_string reg (lit "text.body is required")
                else if ltb max_body_length (length text')
                then invalid js_string reg (lit "text.body must be at most 4096 characters")
                else recipient js_string reg b' v text')
              counter)
        → Checked b' counter
    text_found-Sent b' v text' counter h = elim (Bool-cases (is_empty text')) [
      | inl e ↦ absurd (invalid-Sent (lit "text.body is required") counter (rw (← h, e) refl))
      | inr e ↦ elim (Bool-cases (ltb max_body_length (length text'))) [
        | inl l ↦ absurd (
            invalid-Sent (lit "text.body must be at most 4096 characters") counter
              (rw (← h, e, l) refl))
        | inr l ↦ recipient-Sent b' v text' counter (rw (← h, e, l) refl)
      ]
    ]

    validate_text-Sent :
        (b' : BusinessNumber) (o : Fields) (counter : ℕ)
        → Sent (validate_text js_string reg b' o counter)
        → Checked b' counter
    unfolding validate_text
    validate_text-Sent b' o counter h =
        elim (Option-cases (text_of (field_in (lit "body") (fields_of (get (lit "text") o))))) [
          | inl e ↦
              absurd (
                invalid-Sent (lit "text.body is required") counter
                  (rw (← h, validate_text, e) refl))
          | inr (t, e) ↦
              text_found-Sent b' (get (lit "to") o) t counter (rw (← h, validate_text, e) refl)
        ]

    found_read-Sent :
        (b' : BusinessNumber) (found : Option StoredMessage) (counter : ℕ)
        → Sent (validate_found js_string reg b' found counter)
        → ⊥
    unfolding validate_found
    found_read-Sent b' none counter h = invalid-Sent _ counter h
    found_read-Sent b' (some m) counter h = elim (Bool-cases (is_inbound_of js_string reg b' m)) [
      | inl e ↦
          let r : Sent (read b' m.wamid, counter) = rw (← h, validate_found, e) refl in
          let clash : read b' m.wamid ≡ send b to wa_id text =
            ap (λ (x : ValidateResult × ℕ). x.0) r in
          cc
      | inr e ↦
          invalid-Sent (lit "message_id is not an inbound message for this phone number") counter
            (rw (← h, validate_found, e) refl)
    ]

    validate_read-Sent :
        (b' : BusinessNumber) (o : Fields) (counter : ℕ)
        → Sent (validate_read js_string reg b' o counter)
        → ⊥
    unfolding validate_read
    validate_read-Sent b' o counter h =
        elim (Bool-cases (is_text (get (lit "status") o) (lit "read"))) [
          | inl e ↦
              found_read-Sent b' (find_message js_string reg (text_of (get (lit "message_id") o)))
                counter (rw (← h, validate_read, e) refl)
          | inr e ↦
              invalid-Sent (lit "status must be \"read\"") counter (rw (← h, validate_read, e) refl)
        ]

    validate_typed-Sent :
        (b' : BusinessNumber) (type : Json) (o : Fields) (counter : ℕ)
        → Sent (validate_typed js_string reg b' type o counter)
        → Checked b' counter
    unfolding validate_typed
    validate_typed-Sent b' type o counter h =
        elim (Bool-cases (is_text (some type) (lit "template"))) [
          | inl e ↦
              recipient-Sent b' (get (lit "to") o)
                (template_text (fields_of (get (lit "template") o))) counter
                (rw (← h, validate_typed, e) refl)
          | inr e ↦ elim (Bool-cases (is_text (some type) (lit "text"))) [
            | inl t ↦ validate_text-Sent b' o counter (rw (← h, validate_typed, e, t) refl)
            | inr t ↦ elim (Option-cases (js_string type)) [
              | inl s ↦ absurd (crash-Sent counter (rw (← h, validate_typed, e, t, s) refl))
              | inr (name, s) ↦ absurd (
                  fail-Sent not_implemented (type_context js_string reg name) false counter
                    (rw (← h, validate_typed, e, t, s) refl))
            ]
          ]
        ]

    typed-Sent :
        (b' : BusinessNumber) (o : Fields) (counter : ℕ)
        → Sent (validate_body js_string reg b' (some o) counter)
        → Checked b' counter
    unfolding validate_body
    typed-Sent b' o counter h =
        elim (Bool-cases (is_text (get (lit "messaging_product") o) (lit "whatsapp"))) [
          | inr e ↦ absurd (
              invalid-Sent (lit "messaging_product must be \"whatsapp\"") counter
                (rw (← h, validate_body, e) refl))
          | inl e ↦ elim (Option-cases (get (lit "type") o)) [
            | inr (t, found) ↦
                validate_typed-Sent b' t o counter (rw (← h, validate_body, e, found) refl)
            | inl found ↦ elim (Bool-cases (is_some (get (lit "status") o))) [
              | inl s ↦
                  absurd
                    (validate_read-Sent b' o counter (rw (← h, validate_body, e, found, s) refl))
              | inr s ↦ absurd (
                  invalid-Sent (lit "type is required") counter
                    (rw (← h, validate_body, e, found, s) refl))
            ]
          ]
        ]

    validate_body-Sent :
        (b' : BusinessNumber) (o : Option Fields) (counter : ℕ)
        → Sent (validate_body js_string reg b' o counter)
        → Checked b' counter
    unfolding validate_body
    validate_body-Sent b' none counter h = absurd (invalid-Sent _ counter h)
    validate_body-Sent b' (some o) counter h = typed-Sent b' o counter h

    -- A business number that is addressed by its id and whose token is shown.
    unfoldable pub Addressed : ValidateInput → BusinessNumber → Type 0
    Addressed input b' =
        (b'.phone_number_id ≡ input.phone_number_id)
        × (is_token (bearer_token input.auth) b'.token ≡ true)

    pub validate_business-Sent :
        (input : ValidateInput) (b' : BusinessNumber) (counter : ℕ)
        → Sent (validate_business js_string reg input (some b') counter)
        → Addressed input b' × Checked b' counter
    unfolding validate_business Addressed
    validate_business-Sent input b' counter h =
        elim (Bool-cases (text_eq b'.phone_number_id input.phone_number_id)) [
          | inr e ↦ absurd (
              fail-Sent unknown_object (record no_context { id = some input.phone_number_id }) false
                counter (rw (← h, validate_business, e) refl))
          | inl e ↦ elim (Bool-cases (is_token (bearer_token input.auth) b'.token)) [
            | inr t ↦ absurd (
                fail-Sent invalid_token no_context false counter
                  (rw (← h, validate_business, e, t) refl))
            | inl t ↦ (
              (text_eq_sound b'.phone_number_id input.phone_number_id e, t),
              validate_body-Sent b' (fields_of input.body) counter
                  (rw (← h, validate_business, e, t) refl),
            )
          ]
        ]
