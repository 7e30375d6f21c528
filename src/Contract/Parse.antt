-- ===== src/Contract/Parse.antt =====
-- The parser of contract/ws-events.ts. Its argument is the outcome of `JSON.parse` on the frame:
-- `none` where that throws.
pub mod Shapes
pub mod Readers
pub mod Accepts
use comdove_fake_backend.Base.{
  ℕ, ◌+◌, Text, lit, length, text_eq, is_blank, Bool, true, false, not, Option, none, some, List,
  [], ◌∷◌, ◌++◌, if◌then◌else◌, leb,
}
use comdove_fake_backend.Contract.Json.{
  Json, boolean, number, string, array, object, nat, Items, nil, cons, Fields, get,
}
use comdove_fake_backend.Contract.Decimal.{decimal}
use comdove_fake_backend.Contract.Types.{
  ReplyMode, manual, echo, keyword, Rule, AutoReply, max_body_length, max_delay_ms,
}
use comdove_fake_backend.Contract.Events.{
  WsErrorCode, bad_json, bad_request, unknown_type, ClientEvent, group_claim, message_send,
  tile_presence, chat_read, tile_autoreply, admin_subscribe,
}

pub data ClientEventType : Type 0 where
  claim send presence chat autoreply subscribe : ClientEventType

pub data ParseResult : Type 0 where
  accepted : ClientEvent → ParseResult
  rejected : WsErrorCode → Text → ParseResult

-- A reader of fields: `field_error` is a thrown `FieldError`.
pub data Checked {ℓ} (A : Type ℓ) : Type ℓ where
  valid : A → Checked A
  field_error : Text → Checked A

infixl 5 ◌>>=◌ ◌>>◌
abbrev pub ◌>>=◌ {ℓ κ} : {A : Type ℓ} {B : Type κ} → Checked A → (A → Checked B) → Checked B
valid a >>= f = f a
field_error m >>= f = field_error m

abbrev pub ◌>>◌ {ℓ} : {B : Type ℓ} → Checked (Unit {0}) → Checked B → Checked B
m >> k = m >>= λ _. k

abbrev pub check : Bool → Text → Checked (Unit {0})
check true m = valid tt
check false m = field_error m

-- CLIENT_EVENT_TYPES with `isClientEventType`.
unfoldable pub client_event_type : Text → Option ClientEventType
client_event_type t =
    if text_eq t (lit "group.claim")
    then some claim
    else if text_eq t (lit "message.send")
    then some send
    else if text_eq t (lit "tile.presence")
    then some presence
    else if text_eq t (lit "chat.read")
    then some chat
    else if text_eq t (lit "tile.autoreply")
    then some autoreply
    else if text_eq t (lit "admin.subscribe")
    then some subscribe
    else none

-- `field '${path}' ${what}`
field_message : Text → Text → Text
field_message path what = lit "field '" ++ (path ++ (lit "' " ++ what))

string_value : Option Json → Text → Checked Text
unfolding field_message
string_value (some (string s)) path =
    if is_blank s
    then field_error (field_message path (lit "must be a non-empty string"))
    else valid s
string_value v path = field_error (field_message path (lit "must be a non-empty string"))

unfoldable pub non_empty_string_at : Fields → Text → Text → Checked Text
unfolding string_value
non_empty_string_at o key path = string_value (get key o) path

unfoldable pub non_empty_string : Fields → Text → Checked Text
unfolding non_empty_string_at
non_empty_string o key = non_empty_string_at o key key

bool_value : Option Json → Text → Checked Bool
unfolding field_message
bool_value (some (boolean b)) key = valid b
bool_value v key = field_error (field_message key (lit "must be boolean"))

unfoldable pub bool : Fields → Text → Checked Bool
unfolding bool_value
bool o key = bool_value (get key o) key

unfoldable pub message_body : Fields → Checked Text
unfolding field_message
message_body o = do
  v ← non_empty_string o (lit "body")
  check (leb (length v) max_body_length)
      (field_message (lit "body") (lit "must be at most 4096 characters"))
  valid v

-- REPLY_MODES
unfoldable pub reply_mode : Text → Option ReplyMode
reply_mode t =
    if text_eq t (lit "manual")
    then some manual
    else if text_eq t (lit "echo")
    then some echo
    else if text_eq t (lit "keyword")
    then some keyword
    else none

mode_message : Text
unfolding field_message
mode_message = field_message (lit "mode") (lit "must be one of manual, echo, keyword")

or_field_error {ℓ} : {A : Type ℓ} → Option A → Text → Checked A
or_field_error (some a) m = valid a
or_field_error none m = field_error m

mode_value : Option Json → Checked ReplyMode
unfolding mode_message or_field_error
mode_value (some (string t)) = or_field_error (reply_mode t) mode_message
mode_value v = field_error mode_message

delay_message : Text
unfolding field_message
delay_message = field_message (lit "delay_ms") (lit "must be an integer from 0 to 30000")

delay_value : Option Json → Checked ℕ
unfolding delay_message
delay_value (some (number (nat n))) =
    if leb n max_delay_ms then valid n else field_error delay_message
delay_value v = field_error delay_message

rules_message : Text
unfolding field_message
rules_message = field_message (lit "rules") (lit "must be an array")

-- `rules[${i}]`
rule_path : ℕ → Text
unfolding decimal
rule_path i = lit "rules[" ++ (decimal i ++ lit "]")

rule_value : Json → ℕ → Checked Rule
unfolding rule_path field_message
rule_value (object r) i = do
  k ← non_empty_string_at r (lit "keyword") (rule_path i ++ lit ".keyword")
  a ← non_empty_string_at r (lit "reply") (rule_path i ++ lit ".reply")
  valid (record { keyword = k; reply = a })
rule_value v i = field_error (field_message (rule_path i) (lit "must be an object"))

-- `o.rules.map(…)`, from index `i`
rule_values : Items → ℕ → Checked (List Rule)
unfolding rule_value
rule_values nil i = valid []
rule_values (cons v vs) i = do r ← rule_value v i; rs ← rule_values vs (i + 1); valid (r ∷ rs)

rules_value : Option Json → Checked (List Rule)
unfolding rule_values rules_message
rules_value (some (array vs)) = rule_values vs 0
rules_value v = field_error rules_message

unfoldable pub auto_reply : Fields → Checked AutoReply
unfolding mode_value delay_value rules_value
auto_reply o = do
  mode ← mode_value (get (lit "mode") o)
  delay ← delay_value (get (lit "delay_ms") o)
  rules ← rules_value (get (lit "rules") o)
  valid (record { mode = mode; delay_ms = delay; rules = rules })

unfoldable pub read_event : ClientEventType → Fields → Checked ClientEvent
unfolding non_empty_string bool message_body auto_reply
read_event claim o = do g ← non_empty_string o (lit "group"); valid (group_claim g)
read_event send o = do
  from ← non_empty_string o (lit "from")
  to ← non_empty_string o (lit "to")
  body ← message_body o
  valid (message_send from to body)
read_event presence o = do
  n ← non_empty_string o (lit "number")
  online ← bool o (lit "online")
  valid (tile_presence n online)
read_event chat o = do
  n ← non_empty_string o (lit "number")
  peer ← non_empty_string o (lit "peer")
  valid (chat_read n peer)
read_event autoreply o = do
  n ← non_empty_string o (lit "number")
  ar ← auto_reply o
  valid (tile_autoreply n ar)
read_event subscribe o = valid admin_subscribe

-- The `catch` of a `FieldError`.
finish : Checked ClientEvent → ParseResult
finish (valid ev) = accepted ev
finish (field_error m) = rejected bad_request m

parse_typed : Option ClientEventType → Text → Fields → ParseResult
unfolding finish
parse_typed (some type) name o = finish (read_event type o)
parse_typed none name o = rejected unknown_type (lit "unknown type: " ++ name)

parse_object : Option Json → Fields → ParseResult
unfolding parse_typed
parse_object (some (string name)) o = parse_typed (client_event_type name) name o
parse_object v o = rejected bad_request (lit "missing field: type")

unfoldable pub parse_client_event : Option Json → ParseResult
unfolding parse_object
parse_client_event none = rejected bad_json (lit "frame is not valid JSON")
parse_client_event (some (object o)) = parse_object (get (lit "type") o) o
parse_client_event (some v) = rejected bad_json (lit "frame must be a JSON object")
