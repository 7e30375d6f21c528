-- ===== src/Api/Leaves.antt =====
-- What each handler of the control API leaves behind where it refuses.
use comdove_fake_backend.Contract.Parse.{parse_client_event}
use comdove_fake_backend.Contract.Events.{
  admin_subscribe, chat_read, tile_presence, message_send, group_claim, tile_autoreply, ClientEvent,
}
use comdove_fake_backend.Live.Engine.Reached.{ParseResult-cases}
use comdove_fake_backend.Base.{
  not, digits_only, or_else, ltb, leb, Bool-cases, Option-cases, is_some, length, is_empty, Text,
  lit, ℕ, suc, ◌≡◌, refl, ◌⊎◌, inl, inr, Bool, true, false, ◌||◌, Option, none, some, List, map,
}
use comdove_fake_backend.Contract.Types.{
  Direction, Source, inject, AutoReply, StoredMessage, max_body_length,
}
use comdove_fake_backend.Contract.Json.{Json, null, boolean, string, object}
use comdove_fake_backend.Store.Registry.{
  get_business, get_customer, BusinessInput, delete_business_number, register_business_number,
}
use comdove_fake_backend.Store.Messages.{store_port_message}
use comdove_fake_backend.Store.Groups.{get_auto_reply, create_group, delete_group, set_auto_reply}
use comdove_fake_backend.Lifecycle.{
  World, LifecycleDeps, Outcome, done, thrown, port_message, inbound_stored, inbound,
}
use comdove_fake_backend.Lifecycle.Kept.{Result-cases}
use comdove_fake_backend.Live.Lock.{LockTable}
use comdove_fake_backend.Live.Feed.{shared_lock}
use comdove_fake_backend.Live.Delivery.{Platform, Server, live_deps, with_feed, drawn_one, receive}
use comdove_fake_backend.Live.GroupEvents.{lifecycle_message, set_presence}
use comdove_fake_backend.Api.Types.{
  auto_reply_frame, reply_config, message_of, created_group, business, presence_of, wamid, nothing,
  Response, answer, escaped, fail_with, refused_as, is_falsy, Conversions, string_or_empty,
}
use comdove_fake_backend.Api.Handlers.{
  change_auto_reply_of, saved_as, items_given, register_number, remove_number, make_group,
  remove_group, inject_as, inject_message, presence_as, change_presence, put_reply_config,
}

-- Answered with an error status, by the handler or by Express, which answers 500 where the handler
-- throws. A request that delivers messages may have changed the state before it throws.
abbrev pub is_refused : (delivers : Bool) → Response → Bool
is_refused delivers (answer status b) = leb 400 status
is_refused delivers (escaped e) = not delivers

-- All is as it was, but for the random ids that have been drawn.
abbrev pub redrawn : ℕ → Server → Server
redrawn n w = with_feed (λ f. record f { drawn = n }) w

-- A message that is not stored leaves the state as it was.
inbound_done :
    {B : Type 0} (d : LifecycleDeps B) (from to body : Text) (source : Source) (id : Text) (now : ℕ)
    (w : World B)
    → ((m : StoredMessage) × ((inbound d from to body source id now w).1 ≡ done m))
      ⊎ ((inbound d from to body source id now w).0 ≡ w)
unfolding inbound inbound_stored
inbound_done d from to body source id now w = elim (Option-cases (get_customer from w.db)) [
  | inl e ↦ inr (rw (inbound, e) refl)
  | inr (c, e) ↦ elim (Option-cases (get_business to w.db)) [
    | inl e₁ ↦ inr (rw (inbound, e, e₁) refl)
    | inr (b, e₁) ↦ elim (Bool-cases (is_empty body || ltb max_body_length (length body))) [
      | inl e₂ ↦ inr (rw (inbound, e, e₁, e₂) refl)
      | inr e₂ ↦
          let msg = port_message Direction.inbound source id b.phone_number_id c.number body now in
          elim (Result-cases (store_port_message msg w.db)) [
            | inr (y, e₃) ↦ inr (rw (inbound, e, e₁, e₂, e₃) refl)
            | inl (r, e₃) ↦ inl (r.0, rw (inbound, e, e₁, e₂, e₃) refl)
          ]
    ]
  ]
]

-- A response with the state after it: an error leaves the state as it was.
abbrev pub Leaves : (delivers : Bool) → Server → Response × Server → Type 0
Leaves delivers w r = is_refused delivers r.0 ≡ true → (n : ℕ) × (r.1 ≡ redrawn n w)

same_after : (b : Bool) (w : Server) (r : Response) → Leaves b w (r, w)
same_after b w r h = (w.bus.drawn, refl)

fine : (b : Bool) (w w' : Server) (r : Response) → is_refused b r ≡ false → Leaves b w (r, w')
fine b w w' r ok h = let clash : true ≡ false = rw (← h) ok in cc

module _ (c : Conversions) where
  pub register_number-Leaves :
      (display : Option Json) (rest : BusinessInput) (now : ℕ) (locks : LockTable) (w : Server)
      → Leaves false w (register_number c display rest now locks w)
  unfolding register_number
  register_number-Leaves display rest now locks w = elim (Bool-cases (is_falsy display)) [
    | inl e ↦
        rw (register_number, e)
          (same_after false w (fail_with 400 (lit "display_number is required")))
    | inr e ↦
        let input : BusinessInput = record rest {
          display_number = string_or_empty c.string_of display;
        } in
        elim (Result-cases
          (register_business_number c.number_of c.cast_integer input c.new_token now w.db)) [
            | inr (x, e₁) ↦ rw (register_number, e, e₁) (same_after false w (refused_as x))
            | inl (r, e₁) ↦
                rw (register_number, e, e₁) (fine false w _ (answer 200 (business r.0)) refl)
          ]
  ]

  pub remove_number-Leaves :
      (id : Text) (locks : LockTable) (w : Server) → Leaves false w (remove_number c id locks w)
  unfolding remove_number
  remove_number-Leaves id locks w =
      let r = delete_business_number id w.db in
      elim (Bool-cases r.0) [
        | inl e ↦ rw (remove_number, e) (fine false w _ (answer 204 nothing) refl)
        | inr e ↦
            rw (remove_number, e)
              (same_after false w (fail_with 404 (lit "no such business number")))
      ]

  pub make_group-Leaves :
      (to_lower : Text → Text) (name numbers : Option Json) (labels : List (Text × Text)) (now : ℕ)
      (locks : LockTable) (w : Server)
      → Leaves false w (make_group c to_lower name numbers labels now locks w)
  unfolding make_group
  make_group-Leaves to_lower name numbers labels now locks w = elim (Bool-cases (is_falsy name)) [
    | inl e ↦ rw (make_group, e) (same_after false w (fail_with 400 (lit "name is required")))
    | inr e ↦ elim (Bool-cases (is_empty (items_given numbers))) [
      | inl e₁ ↦
          rw (make_group, e, e₁)
            (same_after false w (fail_with 400 (lit "numbers must be a non-empty array")))
      | inr e₁ ↦
          elim (Result-cases (
            create_group to_lower (string_or_empty c.string_of name)
              (map c.string_of (items_given numbers)) labels now w.db)) [
                | inr (x, e₂) ↦ rw (make_group, e, e₁, e₂) (same_after false w (refused_as x))
                | inl (r, e₂) ↦
                    rw (make_group, e, e₁, e₂)
                      (fine false w _ (answer 200 (created_group r.0 r.1)) refl)
              ]
    ]
  ]

  pub remove_group-Leaves :
      (id : Text) (locks : LockTable) (w : Server) → Leaves false w (remove_group c id locks w)
  unfolding remove_group
  remove_group-Leaves id locks w =
      let r = delete_group (shared_lock locks) id w.db in
      elim (Bool-cases r.0.1) [
        | inl e ↦
            rw (remove_group, e)
              (same_after false w (fail_with 409 (lit "group is claimed by an open session")))
        | inr e ↦ elim (Bool-cases r.0.0) [
          | inl e₁ ↦ rw (remove_group, e, e₁) (fine false w _ (answer 204 nothing) refl)
          | inr e₁ ↦
              rw (remove_group, e, e₁) (same_after false w (fail_with 404 (lit "no such group")))
        ]
      ]

  presence_as_fine :
      (w : Server) (number : Text) (online : Bool) (r : Server × Outcome Bool)
      → Leaves true w (presence_as c number online r)
  unfolding presence_as
  presence_as_fine w number online (w', done e) =
      fine true w w' (answer 200 (presence_of number online e)) refl
  presence_as_fine w number online (w', thrown x) = fine true w w' (escaped x) refl

  change_presence_to :
      (p : Platform) (number : Option Json) (online : Bool) (now : ℕ) (locks : LockTable)
      (w : Server)
      → Leaves true w (change_presence c p number (some (boolean online)) now locks w)
  unfolding change_presence
  change_presence_to p number online now locks w = elim (Bool-cases (is_falsy number)) [
    | inl e ↦ rw (change_presence, e) (same_after true w (fail_with 400 (lit "number is required")))
    | inr e ↦ elim (Option-cases (get_customer (string_or_empty c.string_of number) w.db)) [
      | inl e₁ ↦
          rw (change_presence, e, e₁) (same_after true w (fail_with 404 (lit "no such customer")))
      | inr (t, e₁) ↦
          rw (change_presence, e, e₁)
            (presence_as_fine w t.number online (set_presence p t.number online now locks w))
    ]
  ]

  pub change_presence-Leaves :
      (p : Platform) (number online : Option Json) (now : ℕ) (locks : LockTable) (w : Server)
      → Leaves true w (change_presence c p number online now locks w)
  unfolding change_presence
  change_presence-Leaves p number (some (boolean online)) now locks w h =
      change_presence_to p number online now locks w h
  change_presence-Leaves p number none now locks w h = (w.bus.drawn, refl)
  change_presence-Leaves p number (some null) now locks w h = (w.bus.drawn, refl)
  change_presence-Leaves p number (some (Json.number n)) now locks w h = (w.bus.drawn, refl)
  change_presence-Leaves p number (some (string t)) now locks w h = (w.bus.drawn, refl)
  change_presence-Leaves p number (some (Json.array vs)) now locks w h = (w.bus.drawn, refl)
  change_presence-Leaves p number (some (object fs)) now locks w h = (w.bus.drawn, refl)

  inject_as-Leaves :
      (w : Server) (r : Server × Outcome StoredMessage)
      → ((m : StoredMessage) × (r.1 ≡ done m)) ⊎ (r.0 ≡ drawn_one w)
      → Leaves true w (inject_as c r)
  unfolding inject_as
  inject_as-Leaves w (w', done m) h = fine true w w' (answer 200 (wamid m.wamid)) refl
  inject_as-Leaves w (w', thrown x) (inl (m, e)) = cc
  inject_as-Leaves w (w', thrown x) (inr same) = elim (Option-cases (lifecycle_message x)) [
    | inl e ↦ rw (inject_as, e) (fine true w w' (escaped x) refl)
    | inr (text, e) ↦ rw (inject_as, e) (λ h. (suc w.bus.drawn, same))
  ]

  pub inject_message-Leaves :
      (p : Platform) (from to body : Option Json) (now : ℕ) (w : Server)
      → Leaves true w (inject_message c p from to body now w)
  unfolding inject_message receive
  inject_message-Leaves p from to body now w =
      elim (Bool-cases (is_falsy from || is_falsy to || is_falsy body)) [
        | inl e ↦
            rw (inject_message, e)
              (same_after true w (fail_with 400 (lit "from, to and body are required")))
        | inr e ↦
            let sender = string_or_empty c.string_of from in
            elim (Bool-cases (is_some (get_customer sender w.db))) [
              | inr e₁ ↦
                  rw (inject_message, e, e₁)
                    (same_after true w (fail_with 400 (lit "from must be a registered customer")))
              | inl e₁ ↦ elim (Option-cases (get_business (string_or_empty c.string_of to) w.db)) [
                | inl e₂ ↦
                    rw (inject_message, e, e₁, e₂)
                      (same_after true w
                        (fail_with 400 (lit "to must be a registered business number")))
                | inr (b, e₂) ↦
                    let text = string_or_empty c.string_of body in
                    rw (inject_message, e, e₁, e₂)
                      (inject_as-Leaves w (receive p sender b.phone_number_id text inject now w) (
                        inbound_done (live_deps p) sender b.phone_number_id text inject
                          (p.new_wamid w.bus.drawn) now (drawn_one w)))
              ]
            ]
      ]

put_reply_config-Leaves :
    (number : Text) (ar : AutoReply) (locks : LockTable) (w : Server)
    → Leaves false w (put_reply_config number ar locks w)
unfolding put_reply_config
put_reply_config-Leaves number ar locks w = elim (Result-cases (set_auto_reply number ar w.db)) [
  | inr (x, e) ↦ rw (put_reply_config, e) (same_after false w (answer 404 (message_of x)))
  | inl (db, e) ↦
      rw (put_reply_config, e)
        (fine false w _
          (answer 200 (reply_config (or_else (get_auto_reply (digits_only number) db) ar))) refl)
]

saved_as-Leaves :
    (number : Text) (ev : ClientEvent) (locks : LockTable) (w : Server)
    → Leaves false w (saved_as number ev locks w)
unfolding saved_as
saved_as-Leaves number (tile_autoreply n ar) locks w h = put_reply_config-Leaves number ar locks w h
saved_as-Leaves number (group_claim g) locks w h = (w.bus.drawn, refl)
saved_as-Leaves number (message_send f t b) locks w h = (w.bus.drawn, refl)
saved_as-Leaves number (tile_presence n o) locks w h = (w.bus.drawn, refl)
saved_as-Leaves number (chat_read n q) locks w h = (w.bus.drawn, refl)
saved_as-Leaves number admin_subscribe locks w h = (w.bus.drawn, refl)

pub change_auto_reply_of-Leaves :
    (number : Text) (mode delay_ms rules : Option Json) (locks : LockTable) (w : Server)
    → Leaves false w (change_auto_reply_of number mode delay_ms rules locks w)
unfolding change_auto_reply_of
change_auto_reply_of-Leaves number mode delay_ms rules locks w =
    elim (ParseResult-cases
      (parse_client_event (some (auto_reply_frame number mode delay_ms rules)))) [
        | inr (code, text, e) ↦
            rw (change_auto_reply_of, e) (same_after false w (fail_with 400 text))
        | inl (ev, e) ↦ rw (change_auto_reply_of, e) (saved_as-Leaves number ev locks w)
      ]
