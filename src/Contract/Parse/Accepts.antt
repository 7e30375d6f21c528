-- ===== src/Contract/Parse/Accepts.antt =====
-- The parser accepts exactly the frames of the contract, and classifies the others.
use comdove_fake_backend.Base.{
  ◌≡◌, ◌≢◌, refl, ◌↔◌, ◌⊎◌, inl, inr, Text, lit, text_eq, text_eq_sound, Option, none, some, arith,
  Option-cases,
}
use comdove_fake_backend.Contract.Json.{Json, null, string, object, Fields, get}
use comdove_fake_backend.Contract.Events.{
  WsErrorCode, bad_json, bad_request, unknown_type, ClientEvent, group_claim, message_send,
  tile_presence, chat_read, tile_autoreply, admin_subscribe,
}
use comdove_fake_backend.Contract.Parse.{
  ClientEventType, claim, send, presence, chat, autoreply, subscribe, accepted, rejected, Checked,
  valid, client_event_type, non_empty_string, bool, message_body, auto_reply, read_event, finish,
  parse_typed, parse_object, parse_client_event,
}
use comdove_fake_backend.Contract.Parse.Shapes.{HasType, Fits}
use comdove_fake_backend.Contract.Parse.Readers.{
  >>=-eq-valid, non_empty_string_sound, non_empty_string_complete, bool_sound, bool_complete,
  message_body_sound, message_body_complete, auto_reply_sound, auto_reply_complete,
}

abbrev type_name : ClientEventType → Text
type_name claim = lit "group.claim"
type_name send = lit "message.send"
type_name presence = lit "tile.presence"
type_name chat = lit "chat.read"
type_name autoreply = lit "tile.autoreply"
type_name subscribe = lit "admin.subscribe"

client_event_type_sound :
    (t : Text) {k : ClientEventType} → client_event_type t ≡ some k → t ≡ type_name k
unfolding client_event_type
client_event_type_sound t h = ground (
  arith,
  text_eq_sound t (lit "group.claim"),
  text_eq_sound t (lit "message.send"),
  text_eq_sound t (lit "tile.presence"),
  text_eq_sound t (lit "chat.read"),
  text_eq_sound t (lit "tile.autoreply"),
  text_eq_sound t (lit "admin.subscribe"),
)

client_event_type_complete : (k : ClientEventType) → client_event_type (type_name k) ≡ some k
unfolding client_event_type text_eq
client_event_type_complete claim = refl
client_event_type_complete send = refl
client_event_type_complete presence = refl
client_event_type_complete chat = refl
client_event_type_complete autoreply = refl
client_event_type_complete subscribe = refl

module _ (o : Fields) where
  read_event_sound :
      (k : ClientEventType) (ev : ClientEvent)
      → HasType o (type_name k)
      → read_event k o ≡ valid ev
      → Fits o ev
  unfolding read_event
  read_event_sound claim ev t h =
      let (g, eg, h') = >>=-eq-valid (non_empty_string o (lit "group")) _ h in
      let same : group_claim g ≡ ev = ground arith in rw (← same) (t, non_empty_string_sound o _ eg)
  read_event_sound send ev t h =
      let (from, ef, h₁) = >>=-eq-valid (non_empty_string o (lit "from")) _ h in
      let (to, et, h₂) = >>=-eq-valid (non_empty_string o (lit "to")) _ h₁ in
      let (body, eb, h₃) = >>=-eq-valid (message_body o) _ h₂ in
      let same : message_send from to body ≡ ev = ground arith in
      let (hb, small) = message_body_sound o eb in
      rw (← same) (t, non_empty_string_sound o _ ef, non_empty_string_sound o _ et, hb, small)
  read_event_sound presence ev t h =
      let (n, en, h₁) = >>=-eq-valid (non_empty_string o (lit "number")) _ h in
      let (b, eb, h₂) = >>=-eq-valid (bool o (lit "online")) _ h₁ in
      let same : tile_presence n b ≡ ev = ground arith in
      rw (← same) (t, non_empty_string_sound o _ en, bool_sound o _ eb)
  read_event_sound chat ev t h =
      let (n, en, h₁) = >>=-eq-valid (non_empty_string o (lit "number")) _ h in
      let (p, ep, h₂) = >>=-eq-valid (non_empty_string o (lit "peer")) _ h₁ in
      let same : chat_read n p ≡ ev = ground arith in
      rw (← same) (t, non_empty_string_sound o _ en, non_empty_string_sound o _ ep)
  read_event_sound autoreply ev t h =
      let (n, en, h₁) = >>=-eq-valid (non_empty_string o (lit "number")) _ h in
      let (ar, ea, h₂) = >>=-eq-valid (auto_reply o) _ h₁ in
      let same : tile_autoreply n ar ≡ ev = ground arith in
      rw (← same) (t, non_empty_string_sound o _ en, auto_reply_sound o ea)
  read_event_sound subscribe ev t h =
      let same : admin_subscribe ≡ ev = ground arith in rw (← same) t

  abbrev type_of : ClientEvent → ClientEventType
  type_of (group_claim g) = claim
  type_of (message_send f t b) = send
  type_of (tile_presence n b) = presence
  type_of (chat_read n p) = chat
  type_of (tile_autoreply n ar) = autoreply
  type_of admin_subscribe = subscribe

  read_event_complete :
      (ev : ClientEvent)
      → Fits o ev
      → HasType o (type_name (type_of ev)) × (read_event (type_of ev) o ≡ valid ev)
  unfolding read_event
  read_event_complete (group_claim g) (t, hg) =
      (t, rw (non_empty_string_complete o (lit "group") hg))
  read_event_complete (message_send from to body) (t, hf, ht, hb, small) = (
    t,
    rw (non_empty_string_complete o (lit "from") hf)
        (rw (non_empty_string_complete o (lit "to") ht) (rw (message_body_complete o hb small))),
  )
  read_event_complete (tile_presence n b) (t, hn, hb) = (
    t,
    rw (non_empty_string_complete o (lit "number") hn) (rw (bool_complete o (lit "online") hb)),
  )
  read_event_complete (chat_read n p) (t, hn, hp) = (
    t,
    rw (non_empty_string_complete o (lit "number") hn)
        (rw (non_empty_string_complete o (lit "peer") hp)),
  )
  read_event_complete (tile_autoreply n ar) (t, hn, ha) =
      (t, rw (non_empty_string_complete o (lit "number") hn) (rw (auto_reply_complete o ar ha)))
  read_event_complete admin_subscribe t = (t, refl)

-- An event of the contract in the outcome of `JSON.parse`.
abbrev pub IsEvent : Option Json → ClientEvent → Type 0
IsEvent j ev = (o : Fields) × (j ≡ some (object o)) × Fits o ev

finish-accepted :
    (c : Checked ClientEvent) {ev : ClientEvent} → finish c ≡ accepted ev → c ≡ valid ev
unfolding finish
finish-accepted c h = ground arith

parse_object_sound :
    (o : Fields) (v : Option Json) (ev : ClientEvent)
    → get (lit "type") o ≡ v
    → parse_object v o ≡ accepted ev
    → Fits o ev
unfolding parse_object
parse_object_sound o (some (string name)) ev e h = elim (Option-cases (client_event_type name)) [
  | inl none_e ↦ cc (rw (none_e, parse_typed) at h)
  | inr (k, ek) ↦
      let named = client_event_type_sound name ek in
      read_event_sound o k ev (rw (← named) e) (finish-accepted _ (rw (ek, parse_typed) at h))
]
parse_object_sound o (some null) ev e h = cc
parse_object_sound o (some v) ev e h = cc
parse_object_sound o none ev e h = cc

accepts_sound :
    (j : Option Json) (ev : ClientEvent) → parse_client_event j ≡ accepted ev → IsEvent j ev
unfolding parse_client_event
accepts_sound (some (object o)) ev h = (o, refl, parse_object_sound o _ ev refl h)
accepts_sound (some null) ev h = cc
accepts_sound (some v) ev h = cc
accepts_sound none ev h = cc

accepts_complete :
    (j : Option Json) (ev : ClientEvent) → IsEvent j ev → parse_client_event j ≡ accepted ev
unfolding parse_client_event finish
accepts_complete j ev (o, e, fits) =
    let (t, r) = read_event_complete o ev fits in
    rw (e, parse_client_event)
      (rw (t, parse_object)
        (rw (client_event_type_complete (type_of o ev), parse_typed) (rw (r, finish))))

-- A frame is accepted as an event exactly when it is a JSON object that has that event's type
-- and each of its fields, with the contract's limits; other fields do not matter.
pub parse_client_event_iff :
    (j : Option Json) (ev : ClientEvent) → (parse_client_event j ≡ accepted ev) ↔ IsEvent j ev
parse_client_event_iff j ev = (accepts_sound j ev, accepts_complete j ev)

-- What each error code of the parser says of the frame.
abbrev pub RejectedAs : Option Json → WsErrorCode → Type 0
RejectedAs j bad_json = (o : Fields) → j ≢ some (object o)
RejectedAs j unknown_type =
    (o : Fields) × (j ≡ some (object o))
    × ((name : Text) × HasType o name × ((k : ClientEventType) → name ≢ type_name k))
RejectedAs j bad_request =
    (o : Fields) × (j ≡ some (object o))
    × (((name : Text) → ¬ HasType o name) ⊎ ((k : ClientEventType) × HasType o (type_name k)))
    × ((ev : ClientEvent) → ¬ Fits o ev)
RejectedAs j _ = ⊥

not_accepted :
    (o : Fields) {c : WsErrorCode} {m : Text}
    → parse_client_event (some (object o)) ≡ rejected c m
    → (ev : ClientEvent) → ¬ Fits o ev
not_accepted o h ev f = cc (accepts_complete (some (object o)) ev (o, refl, f))

client_event_type-none :
    (t : Text) → client_event_type t ≡ none → (k : ClientEventType) → t ≢ type_name k
client_event_type-none t h k e =
    let found : client_event_type t ≡ some k = rw e (client_event_type_complete k) in cc

finish-rejected :
    (r : Checked ClientEvent) (c : WsErrorCode) (m : Text)
    → finish r ≡ rejected c m
    → c ≡ bad_request
unfolding finish
finish-rejected r c m h = ground arith

parse_object_errors :
    (o : Fields) (v : Option Json) (c : WsErrorCode) (m : Text)
    → get (lit "type") o ≡ v
    → parse_object v o ≡ rejected c m
    → ((ev : ClientEvent) → ¬ Fits o ev)
    → RejectedAs (some (object o)) c
unfolding parse_object parse_typed
parse_object_errors o (some (string name)) c m e h unfit =
    elim (Option-cases (client_event_type name)) [
      | inl unknown ↦
          let code : c ≡ unknown_type = ground arith in
          rw code (o, refl, (name, e, client_event_type-none name unknown))
      | inr (k, known) ↦
          let code = finish-rejected _ c m (rw (known, parse_typed) at h) in
          let named = client_event_type_sound name known in
          rw code (o, refl, inr (k, rw (← named) e), unfit)
    ]
parse_object_errors o (some null) c m e h unfit =
    let code : c ≡ bad_request = ground arith in rw code (o, refl, inl (λ name t. cc), unfit)
parse_object_errors o (some v) c m e h unfit =
    let code : c ≡ bad_request = ground arith in rw code (o, refl, inl (λ name t. cc), unfit)
parse_object_errors o none c m e h unfit =
    let code : c ≡ bad_request = ground arith in rw code (o, refl, inl (λ name t. cc), unfit)

-- A refused frame gets the code that fits its fault: bad_json where it is no JSON object,
-- unknown_type where its type is a text outside the contract, and bad_request where the type is
-- missing, or known, and no event of the contract fits the fields. No other code is given.
pub parse_client_event_errors :
    (j : Option Json) (c : WsErrorCode) (m : Text)
    → parse_client_event j ≡ rejected c m
    → RejectedAs j c
unfolding parse_client_event
parse_client_event_errors (some (object o)) c m h =
    parse_object_errors o _ c m refl h (not_accepted o h)
parse_client_event_errors (some null) c m h =
    let code : c ≡ bad_json = ground arith in rw code (λ o e. cc)
parse_client_event_errors (some v) c m h =
    let code : c ≡ bad_json = ground arith in rw code (λ o e. cc)
parse_client_event_errors none c m h = let code : c ≡ bad_json = ground arith in rw code (λ o e. cc)
