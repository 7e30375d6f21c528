-- ===== src/Contract/Json.antt =====
-- What `JSON.parse` returns, as contract/ws-events.ts and meta/validate.ts read it: a value of one
-- of the types that `typeof` and `Array.isArray` tell apart.
use comdove_fake_backend.Base.{
  ℕ, Text, text_eq, Bool, Option, none, some, List, [], ◌∷◌, if◌then◌else◌,
}

-- A number is an integer, or one that `Number.isInteger` refuses, given by its text.
pub data JsNumber : Type 0 where
  nat : ℕ → JsNumber
  negative : ℕ → JsNumber  -- `negative n` is -(n + 1)
  fractional : Text → JsNumber

mutual
  pub data Json : Type 0 where
    null : Json
    boolean : Bool → Json
    number : JsNumber → Json
    string : Text → Json
    array : Items → Json
    object : Fields → Json

  pub data Items : Type 0 where
    nil : Items
    cons : Json → Items → Items

  pub data Fields : Type 0 where
    end : Fields
    field : Text → Json → Fields → Fields

-- `o[key]`: `none` is `undefined`. The keys that the program reads are not on `Object.prototype`.
unfoldable pub get : Text → Fields → Option Json
get k end = none
get k (field j v fs) = if text_eq j k then some v else get k fs

abbrev pub items : Items → List Json
items nil = []
items (cons v vs) = v ∷ items vs
