-- ===== src/Api/Types.antt =====
-- What the handlers of src/api get and answer. `json` values are members of `req.body`, and `none`
-- is undefined. A member that the source passes on as it is (label, phone_number_id, waba_id,
-- token, labels) is a text or left out: SQLite stores no other value.
use comdove_fake_backend.Base.{
  ◌==◌, if◌then◌else◌, is_empty, Text, lit, ℕ, max, min, Bool, true, false, not, Option, none, some,
  List, [],
}
use comdove_fake_backend.Contract.Types.{AutoReply, BusinessNumber, GroupSummary, CustomerItem}
use comdove_fake_backend.Contract.Json.{
  nat, Json, null, boolean, string, object, nil, Fields, end, field,
}
use comdove_fake_backend.Store.Tables.{StoreError, is_invalid_input}
use comdove_fake_backend.Store.Registry.{BusinessInput}
use comdove_fake_backend.Store.Log.{LogRow}
use comdove_fake_backend.Lifecycle.{LifecycleError}

-- `res.json` of each handler; an error body has the message of `fail` or of the thrown error.
pub data Body : Type 0 where
  message : Text → Body
  message_of : StoreError → Body
  created_group : (id : Text) → (numbers : List Text) → Body
  groups : List GroupSummary → Body
  business : BusinessNumber → Body
  businesses : List BusinessNumber → Body
  customers : List CustomerItem → Body
  presence_of : (number : Text) → (online effective_online : Bool) → Body
  wamid : Text → Body
  log : List LogRow → Body
  reply_config : AutoReply → Body
  was_reset : (kept_numbers : Bool) → Body
  nothing : Body

-- `escaped` is an exception that the handler leaves to Express.
pub data Response : Type 0 where
  answer : (status : ℕ) → Body → Response
  escaped : LifecycleError → Response

abbrev pub fail_with : (status : ℕ) → Text → Response
fail_with status text = answer status (message text)

-- `err instanceof InvalidInputError ? 400 : 409`
abbrev pub refused_as : StoreError → Response
refused_as e = answer (if is_invalid_input e then 400 else 409) (message_of e)

-- `!value`: an undefined, a null, a false, a zero and an empty text are falsy.
unfoldable pub is_falsy : Option Json → Bool
is_falsy none = true
is_falsy (some null) = true
is_falsy (some (boolean b)) = not b
is_falsy (some (Json.number (nat n))) = n == 0
is_falsy (some (string s)) = is_empty s
is_falsy (some v) = false

-- `Number(req.query.limit)`, truncated.
pub data Limit : Type 0 where
  not_finite : Limit
  below_zero : Limit
  at_least_zero : ℕ → Limit

abbrev pub default_log_limit : ℕ
default_log_limit = 100

abbrev pub max_log_limit : ℕ
max_log_limit = 1000

unfoldable pub clamped : Limit → ℕ
clamped not_finite = default_log_limit
clamped below_zero = 1
clamped (at_least_zero n) = min (max n 1) max_log_limit

-- The body that the PUT of an automatic reply hands to the parser of the frames: `mode` is left
-- out where it is undefined, `delay_ms ?? 0`, `rules ?? []`.
abbrev pub or_nullish : Option Json → Json → Json
or_nullish none v = v
or_nullish (some null) v = v
or_nullish (some w) v = w

abbrev pub field_if : Text → Option Json → Fields → Fields
field_if name none fs = fs
field_if name (some v) fs = field name v fs

unfoldable pub auto_reply_frame : (number : Text) → (mode delay_ms rules : Option Json) → Json
auto_reply_frame number mode delay_ms rules = object (
    field (lit "type") (string (lit "tile.autoreply")) (
      field (lit "number") (string number) (
        field_if (lit "mode") mode (
          field (lit "delay_ms") (or_nullish delay_ms (Json.number (nat 0)))
            (field (lit "rules") (or_nullish rules (Json.array nil)) end)))))

pub data Request : Type 0 where
  post_business : (display_number : Option Json) → (rest : BusinessInput) → Request
  get_businesses : Request
  delete_business : (id : Text) → Request
  post_group :
      (name : Option Json) → (numbers : Option Json) → (labels : List (Text × Text)) → Request
  get_groups : Request
  delete_group_named : (id : Text) → Request
  get_customers : Request
  post_presence : (number online : Option Json) → Request
  post_inject : (from to body : Option Json) → Request
  read_log : (limit : Option Text) → Request
  read_auto_reply : (number : Text) → Request
  put_auto_reply_of : (number : Text) → (mode delay_ms rules : Option Json) → Request
  post_reset : (keep_numbers : Option Json) → Request

-- What the handlers take from JavaScript and SQLite: `String(v)`, `Number(s)` truncated, and the
-- arguments of the registry.
pub record Conversions : Type 0 where
  pub string_of : Json → Text
  pub limit_of : Text → Limit
  pub number_of : Text → Option ℕ
  pub cast_integer : Text → ℕ
  pub new_token : Text

abbrev pub string_or_empty : (Json → Text) → Option Json → Text
string_or_empty f none = []
string_or_empty f (some v) = f v
