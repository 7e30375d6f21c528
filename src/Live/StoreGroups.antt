-- ===== src/Live/StoreGroups.antt =====
-- ws/store-groups.ts: the snapshot of a group. A record of its counts is a list with one entry for
-- each key.
pub mod Timeline
pub mod Tiles
use comdove_fake_backend.Base.{
  ltb, if◌then◌else◌, or_else, length, keep, find, any, drop, Text, text_eq, has_text, ℕ, ◌+◌, ◌-◌,
  Bool, not, ◌&&◌, Option, none, some, List, [], ◌∷◌, map,
}
use comdove_fake_backend.Contract.Types.{
  manual, AutoReply, BusinessNumber, Customer, StoredMessage, is_outbound,
  snapshot_history_per_tile,
}
use comdove_fake_backend.Contract.Events.{Tile, SnapshotBusiness, Snapshot, auto_reply}
use comdove_fake_backend.Store.Tables.{Db}
use comdove_fake_backend.Store.Groups.{list_group_tiles, get_auto_reply}
use comdove_fake_backend.Store.Lists.{list_business_numbers}
use comdove_fake_backend.Store.Messages.{queued_for, history}
use comdove_fake_backend.Live.Wire.{is_set, to_ws_message}

-- `unread[key] = (unread[key] ?? 0) + 1`
unfoldable pub count_one : Text → List (Text × ℕ) → List (Text × ℕ)
count_one key [] = (key, 1) ∷ []
count_one key ((k, n) ∷ counts) =
    if text_eq k key then (k, n + 1) ∷ counts else (k, n) ∷ count_one key counts

abbrev pub counts_as_unread : StoredMessage → Bool
counts_as_unread m = is_outbound m.direction && is_set m.delivered_at && not (is_set m.read_at)

unfoldable pub count_unread : List StoredMessage → List (Text × ℕ) → List (Text × ℕ)
unfolding count_one
count_unread [] counts = counts
count_unread (m ∷ ms) counts =
    count_unread ms (if counts_as_unread m then count_one m.from_number counts else counts)

-- `past.length > n ? past.slice(-n) : past`
unfoldable pub newest : ℕ → List StoredMessage → List StoredMessage
newest n ms = if ltb n (length ms) then drop (length ms - n) ms else ms

abbrev pub no_auto_reply : AutoReply
no_auto_reply = record { mode = manual; delay_ms = 0; rules = [] }

abbrev pub past_of : (number : Text) → Db → List StoredMessage
past_of number db =
    let ids = map (λ m. m.wamid) (queued_for number db) in
    keep (λ m. not (has_text m.wamid ids)) (history number db)

unfoldable pub tile_of : Db → Customer → Tile
unfolding count_unread newest get_auto_reply queued_for history
tile_of db c = record {
  number = c.number;
  label = c.label;
  online = c.online;
  auto_reply = or_else (get_auto_reply c.number db) no_auto_reply;
  history = map to_ws_message (newest snapshot_history_per_tile (past_of c.number db));
  queued = map to_ws_message (queued_for c.number db);
  unread = count_unread (past_of c.number db) [];
}

unfoldable pub exists : (group : Text) → Db → Bool
exists g db = any (λ x. text_eq x.id g) db.groups

abbrev pub to_snapshot_business : BusinessNumber → SnapshotBusiness
to_snapshot_business b = record {
  phone_number_id = b.phone_number_id;
  display_number = b.display_number;
  label = b.label;
}

-- `none` where it throws: there is no such group.
unfoldable pub snapshot : (group : Text) → Db → Option Snapshot
unfolding tile_of list_business_numbers list_group_tiles
snapshot g db = elim (find (λ x. text_eq x.id g) db.groups) [
  | none ↦ none
  | some x ↦ some (record {
    id = x.id;
    name = x.name;
    business_numbers = map to_snapshot_business (list_business_numbers db);
    tiles = map (tile_of db) (list_group_tiles g db);
  })
]
