-- ===== src/Live/Engine.antt =====
-- live.ts and ws/server.ts: the sessions with the hooks of the live engine. The heartbeat has
-- a module of its own; the frame sizes of `ws` are left out.
pub mod Indexed
pub mod Actions
pub mod Runs
pub mod Reached
use comdove_fake_backend.Live.Feed.{send as write_frame, subscribe, unsubscribe}
use comdove_fake_backend.Live.StoreGroups.{exists as group_exists, snapshot as group_snapshot}
use comdove_fake_backend.Base.{
  if◌then◌else◌, or_else, Text, lit, ℕ, ◌+◌, Bool, not, ◌&&◌, Option, List, [], ◌∷◌, ◌++◌,
}
use comdove_fake_backend.Contract.Json.{Json}
use comdove_fake_backend.Contract.Events.{
  bad_json, bad_request, group_deleted, Snapshot, group_claimed,
}
use comdove_fake_backend.Contract.Parse.{send, accepted, rejected, parse_client_event}
use comdove_fake_backend.Store.Tables.{Db}
use comdove_fake_backend.Store.Groups.{reset_all}
use comdove_fake_backend.Webhooks.JobStore.{sqlite_store}
use comdove_fake_backend.Webhooks.Dispatcher.Slots.{cancel_all}
use comdove_fake_backend.Lifecycle.{done, thrown}
use comdove_fake_backend.Live.Lock.{LockTable}
use comdove_fake_backend.Live.Session.{
  group, SessionDeps, Live, receives, closes, disconnects, fail, step,
}
use comdove_fake_backend.Live.Feed.{Feed, set_indexed, remove_indexed, lock_changed, admin_reset}
use comdove_fake_backend.Live.Delivery.{Platform, Server, with_feed, deliver_queued}
use comdove_fake_backend.Live.GroupEvents.{error_to, on_group_event}

-- `storeGroups.snapshot` throws for a group that is not there; no caller asks for one.
unfoldable pub snapshot_or_blank : (group : Text) → Db → Snapshot
unfolding group_snapshot
snapshot_or_blank g db =
    or_else (group_snapshot g db) (record { id = g; name = []; business_numbers = []; tiles = [] })

abbrev pub enter_index : (session : ℕ) (group : Text) → Feed → Feed
enter_index i g f = record f { index = set_indexed g i f.index }

abbrev pub leave_index : (session : ℕ) (group : Text) → Feed → Feed
leave_index i g f = record f { index = remove_indexed g i f.index }

-- The socket is not open any more.
abbrev pub socket_gone : (session : ℕ) → Server → Server
socket_gone i = with_feed (λ f. record f { gone = f.gone ++ i ∷ [] })

module _ (p : Platform) where
  -- `onClaim`: what it throws, ws/server.ts reports.
  unfoldable pub claimed : (session : ℕ) (group : Text) (now : ℕ) → LockTable → Server → Server
  unfolding deliver_queued lock_changed set_indexed
  claimed i g now locks w =
      let (w', r) = deliver_queued p g now (with_feed (enter_index i g) w) in
      elim r [
        | thrown e ↦ error_to i bad_request (lit "internal error") w'
        | done u ↦ with_feed (lock_changed locks w'.db) w'
      ]

  unfoldable pub released : (session : ℕ) (group : Text) → LockTable → Server → Server
  unfolding lock_changed remove_indexed
  released i g locks w = with_feed (λ f. lock_changed locks w.db (leave_index i g f)) w

  -- What `attach` hands to the sessions.
  unfoldable pub hooks : SessionDeps Server
  unfolding claimed released on_group_event snapshot_or_blank group_exists
  hooks = record {
    exists = λ g w. group_exists g w.db;
    snapshot = λ g locks w. snapshot_or_blank g w.db;
    on_group_event = on_group_event p;
    on_claim = claimed;
    on_release = released;
    on_admin_subscribe = λ i locks w. with_feed (subscribe i locks w.db) w;
    on_admin_close = λ i locks w. with_feed (unsubscribe i) w;
    send = λ i ev w. with_feed (write_frame i ev) w;
    close_socket = socket_gone;
  }

  -- ws/server.ts, on a `message`: a text frame is what `JSON.parse` makes of it.
  unfoldable pub on_frame :
      (session : ℕ) → (binary : Bool) → Option Json → (now : ℕ) → Live Server → Live Server
  unfolding step parse_client_event fail
  on_frame i binary json now s =
      if binary
      then fail hooks i bad_json (lit "binary frames are not supported") s
      else elim (parse_client_event json) [
        | rejected code message ↦ fail hooks i code message s
        | accepted ev ↦ step hooks (receives i ev now) s
      ]

  -- The end of a socket: it is not open any more when its session closes.
  unfoldable pub on_close : (session : ℕ) → Live Server → Live Server
  unfolding step
  on_close i s = step hooks (closes i) (record s { world = socket_gone i s.world })

  -- The loop of `reset`, over a copy of the index.
  unfoldable pub reset_group : (keep_numbers : Bool) → Text × ℕ → Live Server → Live Server
  unfolding step snapshot_or_blank group_exists
  reset_group keep_numbers (g, i) s =
      if keep_numbers && group_exists g s.world.db
      then record s {
        world = with_feed (write_frame i (group_claimed (snapshot_or_blank g s.world.db))) s.world;
      }
      else step hooks (disconnects i) (record s {
        world =
            error_to i group_deleted (lit "group " ++ g ++ lit " was deleted by a reset") s.world;
      })

  unfoldable pub reset_groups : (keep_numbers : Bool) → List (Text × ℕ) → Live Server → Live Server
  unfolding reset_group
  reset_groups keep_numbers [] s = s
  reset_groups keep_numbers (e ∷ es) s = reset_groups keep_numbers es (reset_group keep_numbers e s)

  unfoldable pub reset : (keep_numbers : Bool) → Live Server → Live Server
  unfolding reset_groups admin_reset
  reset keep_numbers s =
      reset_groups keep_numbers s.world.bus.index
        (record s { world = with_feed (admin_reset s.lock s.world.db) s.world })

-- `doReset` of api/system.route.ts up to `afterReset`: no webhook runs on, and the tables are empty.
unfoldable pub wipe : (keep_numbers : Bool) → Server → Server
unfolding cancel_all reset_all
wipe keep_numbers w = record w {
  db = reset_all keep_numbers w.db;
  dispatcher = let d = cancel_all w.dispatcher in record d { store = sqlite_store.clear d.store };
}
