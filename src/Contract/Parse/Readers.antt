-- ===== src/Contract/Parse/Readers.antt =====
-- What each field reader of the parser returns, as an equivalence.
use comdove_fake_backend.Base.{
  ℕ, ◌+◌, ◌≤◌, ◌≡◌, refl, Text, lit, length, is_blank, text_eq, text_eq_sound, Bool, false, Option,
  none, some, List, [], ◌∷◌, arith,
}
use comdove_fake_backend.Contract.Json.{
  Json, null, boolean, number, string, array, object, nat, Items, nil, cons, Fields, get,
}
use comdove_fake_backend.Contract.Types.{
  ReplyMode, manual, echo, keyword, Rule, AutoReply, max_body_length, max_delay_ms,
}
use comdove_fake_backend.Contract.Parse.{
  Checked, valid, field_error, ◌>>=◌, non_empty_string_at, string_value, non_empty_string, bool,
  message_body, mode_value, delay_value, rules_value, rule_value, rule_values, reply_mode,
  auto_reply,
}
use comdove_fake_backend.Contract.Parse.Shapes.{
  HasText, FitsRule, FitsRules, FitsAutoReply, mode_name,
}

pub >>=-eq-valid {ℓ κ} :
    {A : Type ℓ} {B : Type κ} (m : Checked A) (f : A → Checked B) {b : B}
    → (m >>= f) ≡ valid b
    → (a : A) × (m ≡ valid a) × (f a ≡ valid b)
>>=-eq-valid (valid a) f h = (a, refl, h)
>>=-eq-valid (field_error m) f h = cc

string_value_sound :
    (v : Option Json) (path s : Text)
    → string_value v path ≡ valid s
    → (v ≡ some (string s)) × (is_blank s ≡ false)
unfolding string_value
string_value_sound v path s h = ground arith

string_value_complete :
    (path s : Text) → is_blank s ≡ false → string_value (some (string s)) path ≡ valid s
unfolding string_value
string_value_complete path s h = rw h

pub non_empty_string_at_sound :
    (o : Fields) (key path : Text) {s : Text}
    → non_empty_string_at o key path ≡ valid s
    → HasText o key s
unfolding non_empty_string_at
non_empty_string_at_sound o key path {s} h = string_value_sound (get key o) path s h

pub non_empty_string_at_complete :
    (o : Fields) (key path : Text) {s : Text}
    → HasText o key s
    → non_empty_string_at o key path ≡ valid s
unfolding non_empty_string_at
non_empty_string_at_complete o key path {s} (e, b) = rw e (string_value_complete path s b)

pub non_empty_string_sound :
    (o : Fields) (key : Text) {s : Text} → non_empty_string o key ≡ valid s → HasText o key s
unfolding non_empty_string
non_empty_string_sound o key h = non_empty_string_at_sound o key key h

pub non_empty_string_complete :
    (o : Fields) (key : Text) {s : Text} → HasText o key s → non_empty_string o key ≡ valid s
unfolding non_empty_string
non_empty_string_complete o key h = non_empty_string_at_complete o key key h

pub bool_sound :
    (o : Fields) (key : Text) {b : Bool} → bool o key ≡ valid b → get key o ≡ some (boolean b)
unfolding bool
bool_sound o key h = ground arith

pub bool_complete :
    (o : Fields) (key : Text) {b : Bool} → get key o ≡ some (boolean b) → bool o key ≡ valid b
unfolding bool
bool_complete o key h = ground arith

pub message_body_sound :
    (o : Fields) {s : Text}
    → message_body o ≡ valid s
    → HasText o (lit "body") s × (length s ≤ max_body_length)
unfolding message_body
message_body_sound o {s} h =
    let (v, e, k) = >>=-eq-valid (non_empty_string o (lit "body")) _ h in
    let same : v ≡ s = ground arith in
    let small : length v ≤ max_body_length = ground arith in
    rw (← same) (non_empty_string_sound o (lit "body") e, small)

pub message_body_complete :
    (o : Fields) {s : Text}
    → HasText o (lit "body") s
    → length s ≤ max_body_length
    → message_body o ≡ valid s
unfolding message_body
message_body_complete o {s} h small = rw (non_empty_string_complete o (lit "body") h) (ground arith)

reply_mode_sound : (t : Text) {m : ReplyMode} → reply_mode t ≡ some m → t ≡ mode_name m
unfolding reply_mode
reply_mode_sound t h = ground (
  arith,
  text_eq_sound t (lit "manual"),
  text_eq_sound t (lit "echo"),
  text_eq_sound t (lit "keyword"),
)

reply_mode_complete : (m : ReplyMode) → reply_mode (mode_name m) ≡ some m
unfolding reply_mode text_eq
reply_mode_complete manual = refl
reply_mode_complete echo = refl
reply_mode_complete keyword = refl

mode_value_sound :
    (v : Option Json) {m : ReplyMode} → mode_value v ≡ valid m → v ≡ some (string (mode_name m))
unfolding mode_value
mode_value_sound (some (string t)) {m} h =
    let e : reply_mode t ≡ some m = ground arith in rw (reply_mode_sound t e)
mode_value_sound (some null) h = cc
mode_value_sound (some v) h = cc
mode_value_sound none h = cc

mode_value_complete : (m : ReplyMode) → mode_value (some (string (mode_name m))) ≡ valid m
unfolding mode_value
mode_value_complete m = rw (reply_mode_complete m)

delay_value_sound :
    (v : Option Json) {n : ℕ}
    → delay_value v ≡ valid n
    → (v ≡ some (number (nat n))) × (n ≤ max_delay_ms)
unfolding delay_value
delay_value_sound v h = ground arith

delay_value_complete : (n : ℕ) → n ≤ max_delay_ms → delay_value (some (number (nat n))) ≡ valid n
unfolding delay_value
delay_value_complete n h = ground arith

rule_value_sound : (v : Json) (i : ℕ) {r : Rule} → rule_value v i ≡ valid r → FitsRule v r
unfolding rule_value
rule_value_sound (object o) i {r} h =
    let (k, ek, h') = >>=-eq-valid (non_empty_string_at o (lit "keyword") _) _ h in
    let (a, ea, h'') = >>=-eq-valid (non_empty_string_at o (lit "reply") _) _ h' in
    let same : record { keyword = k; reply = a } ≡ r = ground arith in
    rw (← same) (o, refl, non_empty_string_at_sound o _ _ ek, non_empty_string_at_sound o _ _ ea)
rule_value_sound null i h = cc
rule_value_sound v i h = cc

rule_value_complete : (v : Json) (i : ℕ) (r : Rule) → FitsRule v r → rule_value v i ≡ valid r
unfolding rule_value
rule_value_complete v i r (o, e, hk, ha) = rw e (
    rw (non_empty_string_at_complete o (lit "keyword") _ hk)
      (rw (non_empty_string_at_complete o (lit "reply") _ ha)))

rule_values_sound :
    (vs : Items) (i : ℕ) (rs : List Rule) → rule_values vs i ≡ valid rs → FitsRules vs rs
unfolding rule_values
rule_values_sound nil i [] h = tt
rule_values_sound nil i (r ∷ rs) h = cc
rule_values_sound (cons v vs) i rs h =
    let (q, eq, h') = >>=-eq-valid (rule_value v i) _ h in
    let (qs, eqs, h'') = >>=-eq-valid (rule_values vs (i + 1)) _ h' in
    let same : q ∷ qs ≡ rs = ground arith in
    rw (← same) (rule_value_sound v i eq, rule_values_sound vs (i + 1) qs eqs)

rule_values_complete :
    (vs : Items) (i : ℕ) (rs : List Rule) → FitsRules vs rs → rule_values vs i ≡ valid rs
unfolding rule_values
rule_values_complete nil i [] h = refl
rule_values_complete nil i (r ∷ rs) h = absurd h
rule_values_complete (cons v vs) i [] h = absurd h
rule_values_complete (cons v vs) i (r ∷ rs) (hr, hrs) =
    rw (rule_value_complete v i r hr) (rw (rule_values_complete vs (i + 1) rs hrs))

rules_value_sound :
    (v : Option Json) {rs : List Rule}
    → rules_value v ≡ valid rs
    → (vs : Items) × (v ≡ some (array vs)) × FitsRules vs rs
unfolding rules_value
rules_value_sound (some (array vs)) {rs} h = (vs, refl, rule_values_sound vs 0 rs h)
rules_value_sound (some null) h = cc
rules_value_sound (some v) h = cc
rules_value_sound none h = cc

pub auto_reply_sound : (o : Fields) {ar : AutoReply} → auto_reply o ≡ valid ar → FitsAutoReply o ar
unfolding auto_reply
auto_reply_sound o {ar} h =
    let (m, em, h') = >>=-eq-valid (mode_value (get (lit "mode") o)) _ h in
    let (n, en, h'') = >>=-eq-valid (delay_value (get (lit "delay_ms") o)) _ h' in
    let (rs, ers, h''') = >>=-eq-valid (rules_value (get (lit "rules") o)) _ h'' in
    let same : record { mode = m; delay_ms = n; rules = rs } ≡ ar = ground arith in
    let (ed, small) = delay_value_sound _ en in
    rw (← same) (mode_value_sound _ em, ed, small, rules_value_sound _ ers)

pub auto_reply_complete :
    (o : Fields) (ar : AutoReply) → FitsAutoReply o ar → auto_reply o ≡ valid ar
unfolding auto_reply rules_value
auto_reply_complete o ar (em, ed, small, (vs, ers, hrs)) =
    rw (em, mode_value_complete ar.mode)
      (rw (ed, delay_value_complete ar.delay_ms small)
        (rw (ers, rule_values_complete vs 0 ar.rules hrs)))
