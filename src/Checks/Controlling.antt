-- ===== src/Checks/Controlling.antt =====
-- The control API, the Meta route and the delivery on one business and one customer.
use comdove_fake_backend.Base.{
  take, Text, lit, text_eq, is_digit, digits_only, ℕ, ◌≤◌, ◌≡◌, refl, Bool, true, Option, none,
  some, [], ◌∷◌,
}
use comdove_fake_backend.Contract.Json.{Json, object, end}
use comdove_fake_backend.Contract.Events.{ServerEvent}
use comdove_fake_backend.Store.Registry.{get_business, get_customer}
use comdove_fake_backend.Store.Messages.{select_messages, get_message}
use comdove_fake_backend.Store.Log.{time_of}
use comdove_fake_backend.Store.Log.Order.{Descending}
use comdove_fake_backend.Store.Log.Newest.{whole_log}
use comdove_fake_backend.Meta.Validate.{ValidateInput}
use comdove_fake_backend.Meta.Route.{after_digits, is_version}
use comdove_fake_backend.Meta.Route.Accounted.{Accounted}
use comdove_fake_backend.Lifecycle.{Outcome, done}
use comdove_fake_backend.Live.Wire.{to_ws_message}
use comdove_fake_backend.Live.Feed.{indexed}
use comdove_fake_backend.Live.Delivery.{Server, session_for, deliver}
use comdove_fake_backend.Live.Delivery.Online.{Extends, deliver_online}
use comdove_fake_backend.Live.Session.{Live}
use comdove_fake_backend.Api.Types.{
  log, answer, is_falsy, Limit, at_least_zero, max_log_limit, post_group, Conversions,
}
use comdove_fake_backend.Api.Handlers.{make_group, get_log_limited}
use comdove_fake_backend.Api.Routers.{serve_api}
use comdove_fake_backend.Api.Refused.{redrawn_live, serve_api-error}
use comdove_fake_backend.Api.Limits.{get_log_limited-bounds}
use comdove_fake_backend.Checks.Storing.{shop, used_db}
use comdove_fake_backend.Checks.Messaging.{no_jobs, queued_message}
use comdove_fake_backend.Checks.Serving.{test_platform, no_feed, idle, server_on, team_db}

abbrev any_limit : Text → Limit
any_limit t = at_least_zero 5000

abbrev no_number : Text → Option ℕ
no_number t = none

abbrev no_string : Json → Option Text
no_string v = none

abbrev no_integer : Text → ℕ
no_integer t = 0

abbrev no_text : Json → Text
no_text v = []

abbrev test_conversions : Conversions
test_conversions = record {
  string_of = no_text;
  limit_of = any_limit;
  number_of = no_number;
  cast_integer = no_integer;
  new_token = lit "token";
}

abbrev at_rest : Live Server
at_rest = record { lock = []; sessions = []; world = server_on team_db }

-- A group without a name.
serve_api-error_example :
    (n : ℕ) × ((serve_api test_conversions test_platform (post_group none none []) 70 at_rest).1
      ≡ redrawn_live n at_rest)
unfolding serve_api make_group is_falsy
serve_api-error_example =
    serve_api-error test_conversions test_platform (post_group none none []) 70 at_rest refl

get_log_limited-bounds_example :
    (n : ℕ) × (get_log_limited test_conversions (some (lit "5000")) (server_on team_db)
      ≡ answer 200 (log (take n (whole_log team_db no_jobs))))
    × (1 ≤ n)
    × (n ≤ max_log_limit)
    × Descending time_of (take n (whole_log team_db no_jobs))
get_log_limited-bounds_example =
    get_log_limited-bounds test_conversions (some (lit "5000")) (server_on team_db)

-- A request without an Authorization header.
abbrev no_token : ValidateInput
no_token = record {
  phone_number_id = lit "MOCK-PN-1";
  auth = none;
  force_error = none;
  body = some (object end);
}

-- The first socket holds the group of the customer.
abbrev claimed_server : Server
claimed_server = record {
  db = used_db;
  dispatcher = idle;
  bus = record no_feed { index = (lit "team-a", 0) ∷ [] };
}

deliver_online_example :
    (w' : Server) × ◌≡◌ {A = Server × Outcome Bool}
      (deliver test_platform queued_message 90 claimed_server)
      (w', done true)
    × Extends
        ((
          0,
          ServerEvent.message_new (lit "60111222") (lit "60111222") (to_ws_message queued_message),
        )
          ∷ [])
        w'.bus
    × (get_message (lit "wamid.1") w'.db ≡ some (record queued_message { delivered_at = some 90 }))
unfolding session_for get_customer get_business get_message select_messages text_eq digits_only
    indexed
deliver_online_example =
    deliver_online test_platform queued_message queued_message shop 0 90 claimed_server refl refl
      refl refl refl refl

sends_version : is_version (lit "v20.0") ≡ true
unfolding is_version after_digits is_digit
sends_version = refl
