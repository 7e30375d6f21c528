-- ===== src/Api/Refused.antt =====
-- What a refused request of the control API leaves behind.
use comdove_fake_backend.Live.Session.{Live}
use comdove_fake_backend.Api.Routers.{on_live, serve_api}
use comdove_fake_backend.Api.Routers.{do_reset}
use comdove_fake_backend.Base.{ap, ℕ, Bool, false, ◌≡◌, refl, true, Option, none, some}
use comdove_fake_backend.Contract.Json.{Json, null, boolean, string, object}
use comdove_fake_backend.Live.Delivery.{Platform, Server}
use comdove_fake_backend.Api.Types.{
  get_businesses, get_groups, get_customers, post_reset, put_auto_reply_of, read_auto_reply,
  read_log, post_inject, post_presence, delete_group_named, post_group, delete_business,
  post_business, Request, Response, Conversions,
}
use comdove_fake_backend.Api.Handlers.{
  change_auto_reply_of, register_number, remove_number, make_group, remove_group, inject_message,
  change_presence,
}
use comdove_fake_backend.Api.Leaves.{
  is_refused, redrawn, Leaves, register_number-Leaves, remove_number-Leaves, make_group-Leaves,
  remove_group-Leaves, change_presence-Leaves, inject_message-Leaves, change_auto_reply_of-Leaves,
}

-- The live state with other random ids drawn.
abbrev pub redrawn_live : ℕ → Live Server → Live Server
redrawn_live n s = record s { world = redrawn n s.world }

on_live-Leaves :
    (b : Bool) (f : Server → Response × Server) (s : Live Server)
    → Leaves b s.world (f s.world)
    → is_refused b (on_live f s).0 ≡ true
    → (n : ℕ) × ((on_live f s).1 ≡ redrawn_live n s)
on_live-Leaves b f s leaves h =
    let (n, e) = leaves h in (n, ap (λ (w : Server). record s { world = w }) e)

do_reset-error :
    (p : Platform) (keep : Option Json) (s : Live Server)
    → is_refused false (do_reset p keep s).0 ≡ true
    → (n : ℕ) × ((do_reset p keep s).1 ≡ redrawn_live n s)
unfolding do_reset
do_reset-error p none s h = cc
do_reset-error p (some (boolean b)) s h = cc
do_reset-error p (some null) s h = (s.world.bus.drawn, refl)
do_reset-error p (some (Json.number n)) s h = (s.world.bus.drawn, refl)
do_reset-error p (some (string t)) s h = (s.world.bus.drawn, refl)
do_reset-error p (some (Json.array vs)) s h = (s.world.bus.drawn, refl)
do_reset-error p (some (object fs)) s h = (s.world.bus.drawn, refl)

-- The requests that deliver messages.
abbrev pub delivers : Request → Bool
delivers (post_presence n online) = true
delivers (post_inject from to body) = true
delivers _ = false

-- A request of the control API that is answered with an error status, by its handler or by Express
-- where the handler throws, changes nothing: no table, no webhook, no frame, no timer, no lock and
-- no session; at most a random id has been drawn. A presence or an injection that throws is not
-- covered: it may have changed the state before.
pub serve_api-error :
    (c : Conversions) (p : Platform) (r : Request) (now : ℕ) (s : Live Server)
    → is_refused (delivers r) (serve_api c p r now s).0 ≡ true
    → (n : ℕ) × ((serve_api c p r now s).1 ≡ redrawn_live n s)
unfolding serve_api
serve_api-error c p (post_business display rest) now s h =
    on_live-Leaves false (register_number c display rest now s.lock) s
      (register_number-Leaves c display rest now s.lock s.world) h
serve_api-error c p get_businesses now s h = (s.world.bus.drawn, refl)
serve_api-error c p (delete_business id) now s h =
    on_live-Leaves false (remove_number c id s.lock) s (remove_number-Leaves c id s.lock s.world) h
serve_api-error c p (post_group name numbers labels) now s h =
    on_live-Leaves false (make_group c p.to_lower name numbers labels now s.lock) s
      (make_group-Leaves c p.to_lower name numbers labels now s.lock s.world) h
serve_api-error c p get_groups now s h = (s.world.bus.drawn, refl)
serve_api-error c p (delete_group_named id) now s h =
    on_live-Leaves false (remove_group c id s.lock) s (remove_group-Leaves c id s.lock s.world) h
serve_api-error c p get_customers now s h = (s.world.bus.drawn, refl)
serve_api-error c p (post_presence n online) now s h =
    on_live-Leaves true (change_presence c p n online now s.lock) s
      (change_presence-Leaves c p n online now s.lock s.world) h
serve_api-error c p (post_inject from to body) now s h =
    on_live-Leaves true (inject_message c p from to body now) s
      (inject_message-Leaves c p from to body now s.world) h
serve_api-error c p (read_log limit) now s h = (s.world.bus.drawn, refl)
serve_api-error c p (read_auto_reply n) now s h = (s.world.bus.drawn, refl)
serve_api-error c p (put_auto_reply_of n mode delay_ms rules) now s h =
    on_live-Leaves false (change_auto_reply_of n mode delay_ms rules s.lock) s
      (change_auto_reply_of-Leaves n mode delay_ms rules s.lock s.world) h
serve_api-error c p (post_reset keep) now s h = do_reset-error p keep s h
