-- ===== src/Live/Engine/Reached.antt =====
-- Every state that the server reaches from its boot: who is online, and where its frames go.
use comdove_fake_backend.Store.Registry.{get_customer}
use comdove_fake_backend.Store.Groups.{to_item}
use comdove_fake_backend.Live.Lock.{Held, is_locked, holder}
use comdove_fake_backend.Live.Session.Runs.{boot-Agrees, boot}
use comdove_fake_backend.Live.Session.{group, session_at, Session, Live, fail}
use comdove_fake_backend.Base.{
  if◌then◌else◌, arith, none, Option-cases, some, Bool-cases, Text, lit, ℕ, ◌≡◌, refl, ◌⊎◌, inl,
  inr, Bool, true, false, ◌&&◌, Option, List, [], ◌∷◌, ◌++◌,
}
use comdove_fake_backend.Contract.Types.{Customer}
use comdove_fake_backend.Contract.Json.{Json}
use comdove_fake_backend.Contract.Events.{
  ServerEvent, WsErrorCode, bad_json, group_deleted, ClientEvent, group_claimed,
}
use comdove_fake_backend.Live.Feed.{shared_lock, indexed, send, admin_reset}
use comdove_fake_backend.Live.Delivery.{session_for, is_online, Platform, Server, with_feed}
use comdove_fake_backend.Live.GroupEvents.{error_to}
use comdove_fake_backend.Contract.Parse.{ParseResult, accepted, parse_client_event}
use comdove_fake_backend.Live.Engine.Actions.Kept.{serve-Keeps, admin_reset-Keeps}
use comdove_fake_backend.Live.StoreGroups.{exists as group_exists}
use comdove_fake_backend.Live.Engine.{
  snapshot_or_blank, socket_gone, hooks, on_frame, on_close, reset_group, reset_groups, reset, wipe,
}
use comdove_fake_backend.Live.Engine.Actions.{
  act_all, serve, Action, connects, frame, closes, reply_is_due, accepts, delivers, marks_read,
  rejects, injects, sets_presence, sets_auto_reply, changes_groups, changes_numbers, verifies,
  dispatches, resets, act,
}
use comdove_fake_backend.Live.Engine.Indexed.{owner_of, Matches, send-index, same_index-Kept}
use comdove_fake_backend.Live.Engine.Runs.{
  Coherent, receives-Coherent, closes-Coherent, disconnects-Coherent, connects-Coherent,
  elsewhere-Coherent,
}

pub ParseResult-cases :
    (r : ParseResult)
    → ((ev : ClientEvent) × (r ≡ accepted ev))
      ⊎ ((code : WsErrorCode) × (message : Text) × (r ≡ ParseResult.rejected code message))
ParseResult-cases (accepted ev) = inl (ev, refl)
ParseResult-cases (ParseResult.rejected code message) = inr (code, message, refl)

module _ (p : Platform) where
  on_frame-Coherent :
      (i : ℕ) (binary : Bool) (json : Option Json) (now : ℕ) (s : Live Server)
      → Coherent p s
      → Coherent p (on_frame p i binary json now s)
  unfolding on_frame fail hooks
  on_frame-Coherent i true json now s c =
      elsewhere-Coherent p (error_to i bad_json (lit "binary frames are not supported") s.world) s
        (send-index i (ServerEvent.error bad_json (lit "binary frames are not supported"))
          s.world.bus)
        c
  on_frame-Coherent i false json now s c = elim (ParseResult-cases (parse_client_event json)) [
    | inl (ev, e) ↦ rw (on_frame, e) (receives-Coherent p i ev now s c)
    | inr (code, message, e) ↦
        rw (on_frame, e, fail, hooks)
          (elsewhere-Coherent p (error_to i code message s.world) s
            (send-index i (ServerEvent.error code message) s.world.bus) c)
  ]

  on_close-Coherent : (i : ℕ) (s : Live Server) → Coherent p s → Coherent p (on_close p i s)
  unfolding on_close
  on_close-Coherent i s c =
      closes-Coherent p i (record s { world = socket_gone i s.world })
        (elsewhere-Coherent p (socket_gone i s.world) s refl c)

  reset_group-Coherent :
      (keep_numbers : Bool) (e : Text × ℕ) (s : Live Server)
      → Coherent p s
      → Coherent p (reset_group p keep_numbers e s)
  unfolding reset_group
  reset_group-Coherent keep_numbers (g, i) s c =
      elim (Bool-cases (keep_numbers && group_exists g s.world.db)) [
        | inl e ↦
            rw (reset_group, e)
              (elsewhere-Coherent p
                (with_feed (send i (group_claimed (snapshot_or_blank g s.world.db))) s.world) s
                (send-index i (group_claimed (snapshot_or_blank g s.world.db)) s.world.bus) c)
        | inr e ↦
            let w =
              error_to i group_deleted (lit "group " ++ g ++ lit " was deleted by a reset")
                s.world in
            rw (reset_group, e)
              (disconnects-Coherent p i (record s { world = w })
                (elsewhere-Coherent p w s
                  (send-index i
                    (ServerEvent.error group_deleted
                      (lit "group " ++ g ++ lit " was deleted by a reset"))
                    s.world.bus)
                  c))
      ]

  reset_groups-Coherent :
      (keep_numbers : Bool) (es : List (Text × ℕ)) (s : Live Server)
      → Coherent p s
      → Coherent p (reset_groups p keep_numbers es s)
  unfolding reset_groups
  reset_groups-Coherent keep_numbers [] s c = c
  reset_groups-Coherent keep_numbers (e ∷ es) s c =
      reset_groups-Coherent keep_numbers es (reset_group p keep_numbers e s)
        (reset_group-Coherent keep_numbers e s c)

  served-Coherent :
      (a : Action) (s : Live Server)
      → Coherent p s
      → Coherent p (record s { world = serve p a s.lock s.world })
  served-Coherent a s c =
      elsewhere-Coherent p (serve p a s.lock s.world) s
        (serve-Keeps (same_index-Kept s.world.bus.index) p a s.lock s.world refl) c

  act-Coherent : (a : Action) (s : Live Server) → Coherent p s → Coherent p (act p a s)
  unfolding act reset wipe
  act-Coherent connects s c = connects-Coherent p s c
  act-Coherent (frame i binary json now) s c = on_frame-Coherent i binary json now s c
  act-Coherent (closes i) s c = on_close-Coherent i s c
  act-Coherent (resets keep_numbers) s c =
      let w = wipe keep_numbers s.world in
      let w' = with_feed (admin_reset s.lock w.db) w in
      reset_groups-Coherent keep_numbers w.bus.index (record s { world = w' })
        (elsewhere-Coherent p w' s
          (admin_reset-Keeps (same_index-Kept s.world.bus.index) s.lock w.db w.bus refl) c)
  act-Coherent (reply_is_due n now) s c = served-Coherent (reply_is_due n now) s c
  act-Coherent (accepts b wa_id text now) s c = served-Coherent (accepts b wa_id text now) s c
  act-Coherent (delivers m now) s c = served-Coherent (delivers m now) s c
  act-Coherent (marks_read b wamid now) s c = served-Coherent (marks_read b wamid now) s c
  act-Coherent (rejects r) s c = served-Coherent (rejects r) s c
  act-Coherent (injects from to body now) s c = served-Coherent (injects from to body now) s c
  act-Coherent (sets_presence n online now) s c = served-Coherent (sets_presence n online now) s c
  act-Coherent (sets_auto_reply n ar) s c = served-Coherent (sets_auto_reply n ar) s c
  act-Coherent (changes_groups db) s c = served-Coherent (changes_groups db) s c
  act-Coherent (changes_numbers db) s c = served-Coherent (changes_numbers db) s c
  act-Coherent (verifies passed at detail) s c = served-Coherent (verifies passed at detail) s c
  act-Coherent (dispatches d wamids) s c = served-Coherent (dispatches d wamids) s c

  act_all_kept :
      (actions : List Action) (s : Live Server) → Coherent p s → Coherent p (act_all p actions s)
  unfolding act_all
  act_all_kept [] s c = c
  act_all_kept (a ∷ rest) s c = act_all_kept rest (act p a s) (act-Coherent a s c)

  boot-Matches : (w : Server) → w.bus.index ≡ [] → Matches [] w.bus.index
  unfolding indexed holder
  boot-Matches w e g = rw e refl

  unfoldable pub reached : List Action → Server → Live Server
  unfolding act_all
  reached actions w = act_all p actions (boot (hooks p) w)

  -- Whatever happens after the boot, with an empty session index: the session index has for each
  -- group the holder of its lock, the holder of a lock is a session with the role of that group,
  -- and each session of a group that is not closed holds the group's lock.
  pub reached-Coherent :
      (w : Server) (actions : List Action) → w.bus.index ≡ [] → Coherent p (reached actions w)
  unfolding reached
  reached-Coherent w actions e =
      act_all_kept actions (boot (hooks p) w)
        (record { agrees = boot-Agrees (hooks p) w; matches = boot-Matches w e })

  session_for_owner :
      (s : Live Server) (number : Text) (c : Customer)
      → Coherent p s
      → get_customer number s.world.db ≡ some c
      → session_for number s.world
        ≡ (if c.online then owner_of (holder c.group_id s.lock) else none)
  unfolding session_for
  session_for_owner s number c coherent found =
      rw (session_for, found, coherent.matches c.group_id) refl

  -- After the boot with an empty session index a customer is online for the delivery exactly if
  -- the customers list of the admin feed says so, whatever has happened.
  pub is_online-effective :
      (w : Server) (actions : List Action) (number : Text) (c : Customer)
      → w.bus.index ≡ []
      → get_customer number (reached actions w).world.db ≡ some c
      → is_online number (reached actions w).world
        ≡ (to_item (shared_lock (reached actions w).lock) c).effective_online
  unfolding is_online session_for to_item is_locked
  is_online-effective w actions number c e found =
      let s = reached actions w in
      let tile = session_for_owner s number c (reached-Coherent w actions e) found in
      elim (Bool-cases c.online) [
        | inr off ↦ rw (is_online, tile, off) refl
        | inl on ↦ elim (Option-cases (holder c.group_id s.lock)) [
          | inl free ↦ rw (is_online, tile, on, is_locked, free) refl
          | inr (h, taken) ↦ rw (is_online, tile, on, is_locked, taken) refl
        ]
      ]

  -- And the session that a customer's frames go to is one with the role of the customer's group,
  -- which holds the lock of that group.
  pub session_for-group :
      (w : Server) (actions : List Action) (number : Text) (i : ℕ)
      → w.bus.index ≡ []
      → session_for number (reached actions w).world ≡ some i
      → (c : Customer) × (k : Session) × (h : Held) × (get_customer number
            (reached actions w).world.db
          ≡ some c)
        × (c.online ≡ true)
        × (session_at i (reached actions w).sessions ≡ some k)
        × (k.role ≡ group c.group_id)
        × (holder c.group_id (reached actions w).lock ≡ some h)
        × (h.owner ≡ i)
  unfolding session_for
  session_for-group w actions number i e online =
      let s = reached actions w in
      let coherent = reached-Coherent w actions e in
      elim (Option-cases (get_customer number s.world.db)) [
        | inl x ↦ let clash : none ≡ some i = rw (← online, session_for, x) refl in cc
        | inr (c, found) ↦
            let tile = session_for_owner s number c coherent found in
            elim (Bool-cases c.online) [
              | inr off ↦ let clash : none ≡ some i = rw (← online, tile, off) refl in cc
              | inl on ↦ elim (Option-cases (holder c.group_id s.lock)) [
                | inl free ↦ let clash : none ≡ some i = rw (← online, tile, on, free) refl in cc
                | inr (h, taken) ↦
                    let (k, there, role) = coherent.agrees.holders c.group_id h taken in
                    let both : some h.owner ≡ some i = rw (← online, tile, on, taken) refl in
                    let own : h.owner ≡ i = ground arith in
                    (c, k, h, found, on, rw (← own) there, role, taken, own)
              ]
            ]
      ]
