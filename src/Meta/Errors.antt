-- ===== src/Meta/Errors.antt =====
-- meta/errors.ts and meta/ids.ts. The counter of trace ids is passed along.
use comdove_fake_backend.Base.{
  if◌then◌else◌, or_else, has_text, List, ◌∷◌, Text, lit, text_eq, strip_separators, is_phone, trim,
  ℕ, ◌+◌, ◌%◌, Option, none, some, [], ◌++◌,
}
use comdove_fake_backend.Contract.Decimal.{decimal, pad_start}

pub data MetaErrorKind : Type 0 where
  unknown_object invalid_token invalid_param not_implemented undeliverable rate_limit :
      MetaErrorKind

-- The fields of the error envelope that are not fixed texts, and its HTTP status.
pub record MetaError : Type 0 where
  pub status : ℕ
  pub message : Text
  pub code : ℕ
  pub error_subcode : Option ℕ
  pub details : Option Text
  pub fbtrace_id : Text

pub record MetaErrorContext : Type 0 where
  pub id : Option Text
  pub detail : Option Text
  pub method : Option Text
  pub path : Option Text
  pub what : Option Text

abbrev pub no_context : MetaErrorContext
no_context = record { id = none; detail = none; method = none; path = none; what = none }

-- The rows of CATALOGUE.
unfoldable pub status_of_kind : MetaErrorKind → ℕ
status_of_kind invalid_token = 401
status_of_kind _ = 400

unfoldable pub code_of_kind : MetaErrorKind → ℕ
code_of_kind unknown_object = 100
code_of_kind invalid_token = 190
code_of_kind invalid_param = 100
code_of_kind not_implemented = 100
code_of_kind undeliverable = 131026
code_of_kind rate_limit = 130429

unfoldable pub subcode_of_kind : MetaErrorKind → Option ℕ
subcode_of_kind unknown_object = some 33
subcode_of_kind _ = none

abbrev what_of : MetaErrorContext → Text
what_of c = or_else c.what (or_else c.method (lit "POST") ++ (lit " " ++ or_else c.path []))

unfoldable pub message_of_kind : MetaErrorKind → MetaErrorContext → Text
message_of_kind unknown_object c =
    lit "Unsupported post request. Object with ID '"
    ++ (or_else c.id []
        ++ lit
            "' does not exist, cannot be loaded due to missing permissions, or does not support this operation")
message_of_kind invalid_token c = lit "Invalid OAuth access token - Cannot parse access token"
message_of_kind invalid_param c = lit "(#100) Invalid parameter"
message_of_kind not_implemented c =
    lit "(#100) " ++ (what_of c ++ lit " is not implemented in comdove-mock")
message_of_kind undeliverable c = lit "(#131026) Message undeliverable"
message_of_kind rate_limit c = lit "(#130429) Rate limit hit"

unfoldable pub details_of_kind : MetaErrorKind → MetaErrorContext → Option Text
details_of_kind invalid_param c = c.detail
details_of_kind undeliverable c =
    some (or_else c.detail (lit "Recipient is not a registered mock number"))
details_of_kind _ c = none

-- `nextTraceId`: the text, and the counter after it.
unfoldable pub next_trace_id : (counter : ℕ) → Text × ℕ
next_trace_id counter =
    let n = counter % 999999 + 1 in (lit "MOCK-trace-" ++ pad_start 6 (decimal n), n)

unfoldable pub meta_error : MetaErrorKind → MetaErrorContext → (counter : ℕ) → MetaError × ℕ
unfolding status_of_kind code_of_kind subcode_of_kind message_of_kind details_of_kind next_trace_id
meta_error kind c counter =
    let (trace, n) = next_trace_id counter in
    (
      record {
        status = status_of_kind kind;
        message = message_of_kind kind c;
        code = code_of_kind kind;
        error_subcode = subcode_of_kind kind;
        details = details_of_kind kind c;
        fbtrace_id = trace;
      },
      n,
    )

-- FORCEABLE
unfoldable pub forceable : Text → Option MetaErrorKind
forceable t =
    if text_eq t (lit "190")
    then some invalid_token
    else if text_eq t (lit "33")
    then some unknown_object
    else if text_eq t (lit "100")
    then some invalid_param
    else if text_eq t (lit "131026")
    then some undeliverable
    else if text_eq t (lit "130429")
    then some rate_limit
    else none

-- The members of `Object.prototype`, which `FORCEABLE` inherits. All of them are truthy.
abbrev inherited_names : List Text
inherited_names =
    lit "constructor"
    ∷ lit "toString"
    ∷ lit "toLocaleString"
    ∷ lit "valueOf"
    ∷ lit "hasOwnProperty"
    ∷ lit "isPrototypeOf"
    ∷ lit "propertyIsEnumerable"
    ∷ lit "__proto__"
    ∷ lit "__defineGetter__"
    ∷ lit "__defineSetter__"
    ∷ lit "__lookupGetter__"
    ∷ lit "__lookupSetter__"
    ∷ []

-- What is forced: `inherited` is a function or an object, which is no key of `CATALOGUE`.
pub data Forced : Type 0 where
  forces : MetaErrorKind → (detail : Option Text) → Forced
  inherited : Forced

abbrev pub forced : (name : Text) → Option MetaErrorKind → Forced
forced name (some kind) = forces kind none
forced name none =
    if has_text name inherited_names
    then inherited
    else forces invalid_param (some (lit "unsupported X-Mock-Force-Error value"))

unfoldable pub parse_force_error : Option Text → Option Forced
unfolding forceable trim
parse_force_error none = none
parse_force_error (some header) = some (forced (trim header) (forceable (trim header)))

-- `normalizeNumber`, of a text
unfoldable pub normalize_number : Text → Option Text
normalize_number input =
    let digits = strip_separators input in if is_phone digits then some digits else none
