-- ===== src/Contract/Parse/Shapes.antt =====
-- When an object is a client event of the contract, stated field by field and with no parser.
use comdove_fake_backend.Base.{◌≤◌, ◌≡◌, Text, lit, length, is_blank, false, some, List, [], ◌∷◌}
use comdove_fake_backend.Contract.Json.{
  Json, boolean, number, string, array, object, nat, Items, nil, cons, Fields, get,
}
use comdove_fake_backend.Contract.Types.{
  ReplyMode, manual, echo, keyword, Rule, AutoReply, max_body_length, max_delay_ms,
}
use comdove_fake_backend.Contract.Events.{
  ClientEvent, group_claim, message_send, tile_presence, chat_read, tile_autoreply, admin_subscribe,
}

-- The field holds this text, and the text is not blank.
abbrev pub HasText : Fields → Text → Text → Type 0
HasText o key s = (get key o ≡ some (string s)) × (is_blank s ≡ false)

abbrev pub HasType : Fields → Text → Type 0
HasType o name = get (lit "type") o ≡ some (string name)

abbrev pub mode_name : ReplyMode → Text
mode_name manual = lit "manual"
mode_name echo = lit "echo"
mode_name keyword = lit "keyword"

abbrev pub FitsRule : Json → Rule → Type 0
FitsRule v r =
    (o : Fields) × (v ≡ object o)
    × HasText o (lit "keyword") r.keyword
    × HasText o (lit "reply") r.reply

abbrev pub FitsRules : Items → List Rule → Type 0
FitsRules nil [] = Unit
FitsRules nil (r ∷ rs) = ⊥
FitsRules (cons v vs) [] = ⊥
FitsRules (cons v vs) (r ∷ rs) = FitsRule v r × FitsRules vs rs

abbrev pub FitsAutoReply : Fields → AutoReply → Type 0
FitsAutoReply o ar =
    (get (lit "mode") o ≡ some (string (mode_name ar.mode)))
    × (get (lit "delay_ms") o ≡ some (number (nat ar.delay_ms)))
    × (ar.delay_ms ≤ max_delay_ms)
    × ((vs : Items) × (get (lit "rules") o ≡ some (array vs)) × FitsRules vs ar.rules)

abbrev pub Fits : Fields → ClientEvent → Type 0
Fits o (group_claim g) = HasType o (lit "group.claim") × HasText o (lit "group") g
Fits o (message_send from to body) =
    HasType o (lit "message.send")
    × HasText o (lit "from") from
    × HasText o (lit "to") to
    × HasText o (lit "body") body
    × (length body ≤ max_body_length)
Fits o (tile_presence n online) =
    HasType o (lit "tile.presence")
    × HasText o (lit "number") n
    × (get (lit "online") o ≡ some (boolean online))
Fits o (chat_read n peer) =
    HasType o (lit "chat.read") × HasText o (lit "number") n × HasText o (lit "peer") peer
Fits o (tile_autoreply n ar) =
    HasType o (lit "tile.autoreply") × HasText o (lit "number") n × FitsAutoReply o ar
Fits o admin_subscribe = HasType o (lit "admin.subscribe")
