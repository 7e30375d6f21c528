-- ===== src/Live/GroupEvents/Confined.antt =====
-- What ws/group-events.ts refuses.
use comdove_fake_backend.Base.{
  Option-cases, Text, lit, text_eq, ℕ, ◌≡◌, refl, inl, inr, Bool, false, Option, none, some, ◌++◌,
  arith,
}
use comdove_fake_backend.Contract.Types.{Customer}
use comdove_fake_backend.Contract.Events.{
  number_not_in_group, ClientEvent, group_claim, message_send, tile_presence, chat_read,
  tile_autoreply, admin_subscribe,
}
use comdove_fake_backend.Store.Registry.{get_customer}
use comdove_fake_backend.Live.Lock.{LockTable}
use comdove_fake_backend.Live.Delivery.{Platform, Server}
use comdove_fake_backend.Live.GroupEvents.{
  error_to, with_tile, send_message, read_chat, toggle_presence, change_auto_reply, on_group_event,
}

-- The tile that a group event is about.
abbrev pub tile_named : ClientEvent → Option Text
tile_named (message_send from to body) = some from
tile_named (tile_presence n online) = some n
tile_named (chat_read n peer) = some n
tile_named (tile_autoreply n ar) = some n
tile_named _ = none

abbrev pub in_group : Text → Option Customer → Bool
in_group g none = false
in_group g (some c) = text_eq c.group_id g

abbrev pub outside : (session : ℕ) (group number : Text) → Server → Server
outside i g number w =
    error_to i number_not_in_group (number ++ lit " is not a tile in group " ++ g) w

with_tile-outside :
    (i : ℕ) (g number : Text) (k : Customer → Server → Server) (w : Server)
    → in_group g (get_customer number w.db) ≡ false
    → with_tile i g number k w ≡ outside i g number w
unfolding with_tile
with_tile-outside i g number k w off = elim (Option-cases (get_customer number w.db)) [
  | inl e ↦ rw (with_tile, e) refl
  | inr (c, e) ↦
      let other : text_eq c.group_id g ≡ false = rw (← off, e) refl in rw (with_tile, e, other) refl
]

-- A group event about a number that is no tile of the session's group is answered by an error and
-- changes nothing else: no table, no webhook, no timer, and no frame to another socket.
pub on_group_event-outside :
    (p : Platform) (i : ℕ) (g : Text) (ev : ClientEvent) (now : ℕ) (locks : LockTable) (w : Server)
    (number : Text)
    → tile_named ev ≡ some number
    → in_group g (get_customer number w.db) ≡ false
    → on_group_event p i g ev now locks w ≡ outside i g number w
unfolding on_group_event
on_group_event-outside p i g (message_send from to body) now locks w n e off =
    let same : from ≡ n = ground arith in
    rw (on_group_event, same) (with_tile-outside i g n (send_message p i to body now) w off)
on_group_event-outside p i g (tile_presence x online) now locks w n e off =
    let same : x ≡ n = ground arith in
    rw (on_group_event, same) (with_tile-outside i g n (toggle_presence p i online now locks) w off)
on_group_event-outside p i g (chat_read x peer) now locks w n e off =
    let same : x ≡ n = ground arith in
    rw (on_group_event, same) (with_tile-outside i g n (read_chat p i peer now) w off)
on_group_event-outside p i g (tile_autoreply x ar) now locks w n e off =
    let same : x ≡ n = ground arith in
    rw (on_group_event, same) (with_tile-outside i g n (change_auto_reply p i ar locks) w off)
on_group_event-outside p i g (group_claim x) now locks w n e off = cc
on_group_event-outside p i g admin_subscribe now locks w n e off = cc
