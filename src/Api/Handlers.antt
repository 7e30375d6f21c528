-- ===== src/Api/Handlers.antt =====
-- The handlers of api/numbers.route.ts, api/groups.route.ts, api/traffic.route.ts and
-- api/autoreply.route.ts.
use comdove_fake_backend.Live.Lock.{LockTable}
use comdove_fake_backend.Base.{
  if◌then◌else◌, is_some, or_else, is_empty, Text, lit, digits_only, ℕ, Bool, not, ◌||◌, Option,
  none, some, List, [], map,
}
use comdove_fake_backend.Contract.Types.{inject, AutoReply, StoredMessage}
use comdove_fake_backend.Contract.Json.{Json, boolean, items}
use comdove_fake_backend.Contract.Events.{ClientEvent, tile_autoreply}
use comdove_fake_backend.Contract.Parse.{ParseResult, accepted, parse_client_event}
use comdove_fake_backend.Store.Tables.{Result, throw}
use comdove_fake_backend.Store.Registry.{
  get_business, get_customer, BusinessInput, delete_business_number, register_business_number,
}
use comdove_fake_backend.Store.Groups.{create_group, delete_group, get_auto_reply, set_auto_reply}
use comdove_fake_backend.Store.Log.{get_log}
use comdove_fake_backend.Lifecycle.{Outcome, done, thrown}
use comdove_fake_backend.Live.Feed.{shared_lock, numbers_changed, lock_changed}
use comdove_fake_backend.Live.Delivery.{Platform, Server, receive}
use comdove_fake_backend.Live.GroupEvents.{lifecycle_message, set_presence}
use comdove_fake_backend.Live.Engine.Actions.{put_auto_reply}
use comdove_fake_backend.Api.Types.{
  message_of, created_group, business, presence_of, wamid, log, reply_config, nothing, Response,
  answer, escaped, fail_with, refused_as, is_falsy, default_log_limit, clamped, auto_reply_frame,
  Conversions, string_or_empty,
}

-- `Array.isArray(numbers)`; an empty one is refused as no array is.
abbrev pub items_given : Option Json → List Json
items_given (some (Json.array vs)) = items vs
items_given _ = []

module _ (c : Conversions) where
  unfoldable pub register_number :
      (display_number : Option Json)
      → BusinessInput
      → (now : ℕ) → LockTable
      → Server
      → Response × Server
  unfolding is_falsy register_business_number numbers_changed
  register_number display_number rest now locks w =
      if is_falsy display_number
      then (fail_with 400 (lit "display_number is required"), w)
      else elim (register_business_number c.number_of c.cast_integer
          (record rest { display_number = string_or_empty c.string_of display_number }) c.new_token
          now w.db) [
            | throw e ↦ (refused_as e, w)
            | Result.ok r ↦ (
              answer 200 (business r.0),
              record w { db = r.1; bus = numbers_changed locks r.1 w.bus },
            )
          ]

  unfoldable pub remove_number : (id : Text) → LockTable → Server → Response × Server
  unfolding delete_business_number numbers_changed
  remove_number id locks w =
      let (found, db) = delete_business_number id w.db in
      if found
      then (answer 204 nothing, record w { db = db; bus = numbers_changed locks db w.bus })
      else (fail_with 404 (lit "no such business number"), w)

  unfoldable pub make_group :
      (to_lower : Text → Text)
      → (name numbers : Option Json) → List (Text × Text)
      → (now : ℕ) → LockTable
      → Server
      → Response × Server
  unfolding is_falsy create_group lock_changed
  make_group to_lower name numbers labels now locks w =
      let given = items_given numbers in
      if is_falsy name
      then (fail_with 400 (lit "name is required"), w)
      else if is_empty given
      then (fail_with 400 (lit "numbers must be a non-empty array"), w)
      else elim (create_group to_lower (string_or_empty c.string_of name) (map c.string_of given)
          labels now w.db) [
            | throw e ↦ (refused_as e, w)
            | Result.ok r ↦ (
              answer 200 (created_group r.0 r.1),
              record w { db = r.2; bus = lock_changed locks r.2 w.bus },
            )
          ]

  unfoldable pub remove_group : (id : Text) → LockTable → Server → Response × Server
  unfolding delete_group lock_changed
  remove_group id locks w =
      let ((found, locked), db) = delete_group (shared_lock locks) id w.db in
      if locked
      then (fail_with 409 (lit "group is claimed by an open session"), w)
      else if not found
      then (fail_with 404 (lit "no such group"), w)
      else (answer 204 nothing, record w { db = db; bus = lock_changed locks db w.bus })

  unfoldable pub inject_as : Server × Outcome StoredMessage → Response × Server
  inject_as (w, done m) = (answer 200 (wamid m.wamid), w)
  inject_as (w, thrown e) = elim (lifecycle_message e) [
    | none ↦ (escaped e, w)
    | some text ↦ (fail_with 400 text, w)
  ]

  unfoldable pub inject_message :
      Platform → (from to body : Option Json) → (now : ℕ) → Server → Response × Server
  unfolding is_falsy inject_as receive
  inject_message p from to body now w =
      let sender = string_or_empty c.string_of from in
      if is_falsy from || is_falsy to || is_falsy body
      then (fail_with 400 (lit "from, to and body are required"), w)
      else if not (is_some (get_customer sender w.db))
      then (fail_with 400 (lit "from must be a registered customer"), w)
      else elim (get_business (string_or_empty c.string_of to) w.db) [
        | none ↦ (fail_with 400 (lit "to must be a registered business number"), w)
        | some b ↦
            inject_as
              (receive p sender b.phone_number_id (string_or_empty c.string_of body) inject now w)
      ]

  unfoldable pub presence_as :
      (number : Text) → (online : Bool) → Server × Outcome Bool → Response × Server
  presence_as number online (w, done effective) =
      (answer 200 (presence_of number online effective), w)
  presence_as number online (w, thrown e) = (escaped e, w)

  unfoldable pub change_presence :
      Platform → (number online : Option Json) → (now : ℕ) → LockTable → Server → Response × Server
  unfolding is_falsy presence_as set_presence
  change_presence p number (some (boolean online)) now locks w =
      if is_falsy number
      then (fail_with 400 (lit "number is required"), w)
      else elim (get_customer (string_or_empty c.string_of number) w.db) [
        | none ↦ (fail_with 404 (lit "no such customer"), w)
        | some t ↦ presence_as t.number online (set_presence p t.number online now locks w)
      ]
  change_presence p number online now locks w = (
    if is_falsy number
        then fail_with 400 (lit "number is required")
        else fail_with 400 (lit "online must be true or false"),
    w,
  )

  unfoldable pub get_log_limited : Option Text → Server → Response
  unfolding clamped get_log
  get_log_limited limit w =
      let n : ℕ = elim limit [ none ↦ default_log_limit | some s ↦ clamped (c.limit_of s) ] in
      answer 200 (log (get_log n w.db w.dispatcher.store))

unfoldable pub show_auto_reply : (number : Text) → Server → Response
unfolding get_auto_reply
show_auto_reply number w = elim (get_auto_reply number w.db) [
  | none ↦ fail_with 404 (lit "no such customer")
  | some ar ↦ answer 200 (reply_config ar)
]

-- The PUT from `setAutoReply` on; what it throws is a 404.
unfoldable pub put_reply_config :
    (number : Text) → AutoReply → LockTable → Server → Response × Server
unfolding put_auto_reply
put_reply_config number ar locks w = elim (set_auto_reply number ar w.db) [
  | throw e ↦ (answer 404 (message_of e), w)
  | Result.ok db ↦ (
    answer 200 (reply_config (or_else (get_auto_reply (digits_only number) db) ar)),
    put_auto_reply number ar locks w,
  )
]

-- `parsed.event.type !== 'tile.autoreply'`
unfoldable pub saved_as : (number : Text) → ClientEvent → LockTable → Server → Response × Server
unfolding put_reply_config
saved_as number (tile_autoreply n ar) locks w = put_reply_config number ar locks w
saved_as number _ locks w = (fail_with 400 (lit "invalid auto-reply"), w)

unfoldable pub change_auto_reply_of :
    (number : Text) → (mode delay_ms rules : Option Json) → LockTable → Server → Response × Server
unfolding auto_reply_frame saved_as parse_client_event
change_auto_reply_of number mode delay_ms rules locks w =
    elim (parse_client_event (some (auto_reply_frame number mode delay_ms rules))) [
      | ParseResult.rejected code text ↦ (fail_with 400 text, w)
      | accepted ev ↦ saved_as number ev locks w
    ]
