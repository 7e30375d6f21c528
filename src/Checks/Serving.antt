-- ===== src/Checks/Serving.antt =====
-- The live engine from its boot on, with one group that has one customer.
use comdove_fake_backend.Contract.Parse.{parse_client_event}
use comdove_fake_backend.Live.Lock.{Held, holder, claim}
use comdove_fake_backend.Live.Session.{
  group, Session, session_at, set_session, claim_lock, claim_as, handle, with_session, step,
}
use comdove_fake_backend.Contract.Parse.{
  client_event_type, read_event, non_empty_string, non_empty_string_at,
}
use comdove_fake_backend.Webhooks.Dispatcher.Types.{Dispatcher}
use comdove_fake_backend.Base.{
  is_blank, Text, lit, text_eq, is_blank, digits_only, insert_by, sort_by, ℕ, ◌≡◌, refl, true,
  false, some, List, [], ◌∷◌, ◌++◌,
}
use comdove_fake_backend.Contract.Types.{Customer}
use comdove_fake_backend.Contract.Json.{Json, string, object, end, field, get}
use comdove_fake_backend.Contract.Events.{tile_presence}
use comdove_fake_backend.Store.Tables.{Db}
use comdove_fake_backend.Store.Registry.{get_customer}
use comdove_fake_backend.Store.Messages.{select_messages}
use comdove_fake_backend.Store.Groups.{to_item}
use comdove_fake_backend.Webhooks.JobStore.{Tables}
use comdove_fake_backend.Webhooks.Dispatcher.Slots.{empty}
use comdove_fake_backend.Live.Feed.{Feed, send, indexed, shared_lock}
use comdove_fake_backend.Live.Delivery.{Platform, Server, session_for, is_online}
use comdove_fake_backend.Live.GroupEvents.{on_group_event}
use comdove_fake_backend.Live.GroupEvents.Confined.{outside, on_group_event-outside}
use comdove_fake_backend.Live.StoreGroups.{exists}
use comdove_fake_backend.Live.Engine.{hooks, on_frame}
use comdove_fake_backend.Live.Engine.Actions.{Action, connects, frame, act, act_all}
use comdove_fake_backend.Live.Engine.Runs.{Coherent}
use comdove_fake_backend.Live.Engine.Reached.{
  reached, reached-Coherent, is_online-effective, session_for-group,
}
use comdove_fake_backend.Checks.Storing.{ana, small_db}
use comdove_fake_backend.Checks.Messaging.{no_jobs, four_attempts, one_text}

abbrev pub same_text : Text → Text
same_text t = t

abbrev pub numbered_wamid : ℕ → Text
numbered_wamid n = lit "wamid.new" ++ n ∷ []

abbrev pub test_platform : Platform
test_platform = record {
  to_lower = same_text;
  stringify = one_text;
  new_wamid = numbered_wamid;
  options = four_attempts;
  status_delay = 500;
}

abbrev pub no_feed : Feed
no_feed = record {
  index = [];
  admins = [];
  announced = [];
  frames = [];
  gone = [];
  replies = [];
  drawn = 0;
}

abbrev pub idle : Dispatcher Tables
idle = record {
  store = no_jobs;
  queues = [];
  running = [];
  waiting = [];
  orphans = [];
  requests = [];
  changes = [];
}

abbrev pub server_on : Db → Server
server_on db = record { db = db; dispatcher = idle; bus = no_feed }

abbrev pub team_db : Db
team_db = record small_db {
  groups = record { id = lit "team-a"; name = lit "Team A"; created_at = 0 } ∷ [];
}

abbrev claim_frame : Json
claim_frame = object (
    field (lit "type") (string (lit "group.claim"))
      (field (lit "group") (string (lit "team-a")) end))

-- A socket claims the group of the customer.
abbrev one_claim : List Action
one_claim = connects ∷ frame 0 false (some claim_frame) 50 ∷ []

reached-Coherent_example :
    Coherent test_platform (reached test_platform one_claim (server_on team_db))
reached-Coherent_example = reached-Coherent test_platform (server_on team_db) one_claim refl

is_online-effective_example :
    is_online (lit "60111222") (reached test_platform one_claim (server_on team_db)).world
    ≡ (to_item
        (shared_lock (reached test_platform one_claim (server_on team_db)).lock)
        ana).effective_online
unfolding empty client_event_type read_event is_blank hooks non_empty_string non_empty_string_at
    exists claim claim_as claim_lock handle with_session act act_all session_for send reached
    get_customer text_eq digits_only get step parse_client_event session_at set_session on_frame
    sort_by insert_by select_messages indexed holder
is_online-effective_example =
    is_online-effective test_platform (server_on team_db) one_claim (lit "60111222") ana refl refl

session_for-group_example :
    (c : Customer) × (k : Session) × (h : Held) × (get_customer
        (lit "60111222")
        (reached test_platform one_claim (server_on team_db)).world.db
      ≡ some c)
    × (c.online ≡ true)
    × (session_at 0 (reached test_platform one_claim (server_on team_db)).sessions ≡ some k)
    × (k.role ≡ group c.group_id)
    × (holder c.group_id (reached test_platform one_claim (server_on team_db)).lock ≡ some h)
    × (h.owner ≡ 0)
unfolding empty client_event_type read_event is_blank hooks non_empty_string non_empty_string_at
    exists claim claim_as claim_lock handle with_session act act_all session_for send reached
    get_customer text_eq digits_only get step parse_client_event session_at set_session on_frame
    sort_by insert_by select_messages indexed holder
session_for-group_example =
    session_for-group test_platform (server_on team_db) one_claim (lit "60111222") 0 refl refl

-- The customer is in another group than the session.
on_group_event-outside_example :
    on_group_event test_platform 0
      (lit "team-b")
      (tile_presence (lit "60111222") true)
      60
      []
      (server_on team_db)
    ≡ outside 0 (lit "team-b") (lit "60111222") (server_on team_db)
unfolding get_customer text_eq digits_only
on_group_event-outside_example =
    on_group_event-outside test_platform 0 (lit "team-b") (tile_presence (lit "60111222") true) 60
      [] (server_on team_db) (lit "60111222") refl refl

abbrev away_db : Db
away_db = record small_db { customers = record ana { online = false } ∷ [] }
