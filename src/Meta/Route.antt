-- ===== src/Meta/Route.antt =====
-- meta/messages.route.ts and meta/not-implemented.ts over the validation, the lifecycle and the log.
pub mod Accounted
use comdove_fake_backend.Base.{
  ◌==◌, leb, ◌||◌, if◌then◌else◌, or_else, is_empty, Text, lit, is_digit, ℕ, Bool, false, ◌&&◌,
  Option, none, some, [], ◌∷◌,
}
use comdove_fake_backend.Contract.Types.{StoredMessage, RejectedRequest}
use comdove_fake_backend.Contract.Json.{Json}
use comdove_fake_backend.Store.Tables.{Db}
use comdove_fake_backend.Store.Registry.{get_business, get_customer}
use comdove_fake_backend.Store.Messages.{get_message}
use comdove_fake_backend.Meta.Errors.{
  not_implemented, invalid_param, MetaErrorContext, MetaError, no_context, meta_error,
}
use comdove_fake_backend.Meta.Validate.{
  ValidateInput, ValidateResult, Lookups, fields_of, field_in, text_of, validate,
}
use comdove_fake_backend.Lifecycle.{
  LifecycleError, Outcome, done, thrown, accept, mark_inbound_read,
}
use comdove_fake_backend.Live.Delivery.{Platform, Server, live_deps, drawn_one}
use comdove_fake_backend.Live.Engine.Actions.{log_request}

-- What the route answers with; `escaped` and `uncaught` are exceptions that it leaves to Express.
pub data MetaReply : Type 0 where
  failed : MetaError → MetaReply
  read_success : MetaReply
  send_success : (input wa_id wamid : Text) → MetaReply
  escaped : LifecycleError → MetaReply
  uncaught : MetaReply

-- What `express.json` makes of a request: the input of the route, or an error with its status.
pub data MetaRequest : Type 0 where
  parsed : ValidateInput → MetaRequest
  unparsed : (status : Option ℕ) → MetaRequest

abbrev pub registry_of : Db → Lookups
registry_of db = record {
  get_business = λ key. get_business key db;
  get_customer = λ number. get_customer number db;
  get_message = λ wamid. get_message wamid db;
}

-- One or more digits, then the rest.
unfoldable pub after_digits : Text → Option Text
after_digits [] = none
after_digits (c ∷ cs) =
    let rest = after_digits cs in if is_digit c then some (or_else rest cs) else none

-- VERSION: `/^v\d+\.\d+$/`
unfoldable pub is_version : Text → Bool
unfolding after_digits
is_version [] = false
is_version (c ∷ cs) = (c == 118) && (elim (after_digits cs) [
  | none ↦ false
  | some [] ↦ false
  | some (d ∷ ds) ↦
      (d == 46) && (elim (after_digits ds) [ none ↦ false | some rest ↦ is_empty rest ])
])

unfoldable pub rejected_request :
    ValidateInput → MetaError → (forced : Bool) → (now : ℕ) → RejectedRequest
rejected_request input e forced now = record {
  at = now;
  phone_number_id = input.phone_number_id;
  http_status = e.status;
  code = e.code;
  subcode = e.error_subcode;
  forced = forced;
  to = text_of (field_in (lit "to") (fields_of input.body));
  body = text_of (field_in (lit "body") (fields_of (field_in (lit "text") (fields_of input.body))));
}

-- `msg`, which is delivered once the response is written.
abbrev pub accepted_reply :
    (to wa_id : Text) → Server × Outcome StoredMessage → MetaReply × Option StoredMessage × Server
accepted_reply to wa_id (w, done m) = (send_success to wa_id m.wamid, some m, w)
accepted_reply to wa_id (w, thrown e) = (escaped e, none, w)

abbrev pub not_json : MetaErrorContext
not_json = record no_context { detail = some (lit "request body is not valid JSON") }

-- `metaJsonErrorHandler` where nothing has been answered yet: an error without a status, or with a
-- server's, goes on to Express.
unfoldable pub json_error_reply : (status : Option ℕ) → (counter : ℕ) → MetaReply × ℕ
unfolding meta_error
json_error_reply none counter = (uncaught, counter)
json_error_reply (some status) counter =
    if status == 0 || leb 500 status
    then (uncaught, counter)
    else (let (e, n) = meta_error invalid_param not_json counter in (failed e, n))

module _ (p : Platform) where
  unfoldable pub reply_to :
      ValidateInput
      → ValidateResult
      → (now : ℕ) → Server
      → MetaReply × Option StoredMessage × Server
  unfolding rejected_request log_request mark_inbound_read accept
  reply_to input (ValidateResult.error e forced) now w =
      (failed e, none, log_request p (rejected_request input e forced now) w)
  reply_to input ValidateResult.crashed now w = (uncaught, none, w)
  reply_to input (ValidateResult.read b id) now w =
      (read_success, none, mark_inbound_read (live_deps p) b id now w)
  reply_to input (ValidateResult.send b to wa_id text) now w =
      accepted_reply to wa_id
        (accept (live_deps p) b wa_id text (p.new_wamid w.bus.drawn) now (drawn_one w))

  -- The router, with the counter of the trace ids.
  unfoldable pub post_message :
      (js_string : Json → Option Text)
      → MetaRequest
      → (counter now : ℕ) → Server
      → (MetaReply × Option StoredMessage × Server) × ℕ
  unfolding reply_to validate json_error_reply
  post_message js_string (parsed input) counter now w =
      let (result, counter') = validate js_string (registry_of w.db) input counter in
      (reply_to input result now w, counter')
  post_message js_string (unparsed status) counter now w =
      let (reply, counter') = json_error_reply status counter in ((reply, none, w), counter')

-- `metaNotImplemented`
unfoldable pub not_implemented_reply : (method path : Text) → (counter : ℕ) → MetaReply × ℕ
unfolding meta_error
not_implemented_reply method path counter =
    let (e, counter') =
      meta_error not_implemented (record no_context { method = some method; path = some path })
        counter in
    (failed e, counter')
