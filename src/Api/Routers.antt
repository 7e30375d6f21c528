-- ===== src/Api/Routers.antt =====
-- The control API of compose.ts: one handler for each request.
use comdove_fake_backend.Base.{keep, lit, ℕ, true, Option, none, some}
use comdove_fake_backend.Contract.Json.{Json, boolean}
use comdove_fake_backend.Store.Groups.{list_groups}
use comdove_fake_backend.Store.Lists.{list_business_numbers, list_customers}
use comdove_fake_backend.Live.Session.{Live}
use comdove_fake_backend.Live.Feed.{shared_lock}
use comdove_fake_backend.Live.Delivery.{Platform, Server}
use comdove_fake_backend.Live.Engine.Actions.{resets, act}
use comdove_fake_backend.Api.Types.{
  groups, businesses, customers, was_reset, Response, answer, fail_with, Request, post_business,
  get_businesses, delete_business, post_group, get_groups, delete_group_named, get_customers,
  post_presence, post_inject, read_log, read_auto_reply, put_auto_reply_of, post_reset, Conversions,
}
use comdove_fake_backend.Api.Handlers.{
  register_number, remove_number, make_group, remove_group, inject_message, change_presence,
  get_log_limited, show_auto_reply, change_auto_reply_of,
}

-- `doReset`: `keep_numbers` is true where it is left out.
unfoldable pub do_reset : Platform → Option Json → Live Server → Response × Live Server
unfolding act
do_reset p none s = (answer 200 (was_reset true), act p (resets true) s)
do_reset p (some (boolean keep)) s = (answer 200 (was_reset keep), act p (resets keep) s)
do_reset p (some v) s = (fail_with 400 (lit "keep_numbers must be true or false"), s)

abbrev pub on_live : (Server → Response × Server) → Live Server → Response × Live Server
on_live f s = let (r, w) = f s.world in (r, record s { world = w })

-- The routers of the control API.
unfoldable pub serve_api :
    Conversions → Platform → Request → (now : ℕ) → Live Server → Response × Live Server
unfolding register_number remove_number make_group remove_group change_presence inject_message
    get_log_limited show_auto_reply change_auto_reply_of do_reset list_business_numbers list_groups
    list_customers
serve_api c p (post_business display rest) now s =
    on_live (register_number c display rest now s.lock) s
serve_api c p get_businesses now s = (answer 200 (businesses (list_business_numbers s.world.db)), s)
serve_api c p (delete_business id) now s = on_live (remove_number c id s.lock) s
serve_api c p (post_group name numbers labels) now s =
    on_live (make_group c p.to_lower name numbers labels now s.lock) s
serve_api c p get_groups now s =
    (answer 200 (groups (list_groups (shared_lock s.lock) s.world.db)), s)
serve_api c p (delete_group_named id) now s = on_live (remove_group c id s.lock) s
serve_api c p get_customers now s =
    (answer 200 (customers (list_customers (shared_lock s.lock) s.world.db)), s)
serve_api c p (post_presence number online) now s =
    on_live (change_presence c p number online now s.lock) s
serve_api c p (post_inject from to body) now s = on_live (inject_message c p from to body now) s
serve_api c p (read_log limit) now s = (get_log_limited c limit s.world, s)
serve_api c p (read_auto_reply number) now s = (show_auto_reply number s.world, s)
serve_api c p (put_auto_reply_of number mode delay_ms rules) now s =
    on_live (change_auto_reply_of number mode delay_ms rules s.lock) s
serve_api c p (post_reset keep) now s = do_reset p keep s
