-- ===== src/Live/Engine/Actions.antt =====
-- What happens to the running server, one action at a time: the sockets, the timers, the Meta
-- routes, the control API, and the turns of the dispatcher.
pub mod Kept
use comdove_fake_backend.Base.{
  ltb, if◌then◌else◌, or_else, Text, digits_only, ℕ, zero, suc, Bool, Option, none, some, List, [],
  ◌∷◌,
}
use comdove_fake_backend.Contract.Types.{
  inject, AutoReply, BusinessNumber, StoredMessage, RejectedRequest,
}
use comdove_fake_backend.Contract.Json.{Json}
use comdove_fake_backend.Store.Tables.{Db, Result, throw}
use comdove_fake_backend.Store.Log.{log_rejected}
use comdove_fake_backend.Webhooks.JobStore.{Tables}
use comdove_fake_backend.Webhooks.Dispatcher.Types.{Dispatcher}
use comdove_fake_backend.Lifecycle.{
  BusEvent, log_changed, webhook_verify, emit, accept, mark_inbound_read,
}
use comdove_fake_backend.Live.Lock.{LockTable}
use comdove_fake_backend.Live.Session.{Live, SocketEvent, step}
use comdove_fake_backend.Live.Feed.{PendingReply, Feed, numbers_changed, lock_changed}
use comdove_fake_backend.Live.Bus.{on_event}
use comdove_fake_backend.Live.Delivery.{
  Platform, Server, live_deps, with_feed, drawn_one, receive, auto_reply_due, deliver,
}
use comdove_fake_backend.Live.GroupEvents.{set_presence, auto_reply_changed}
use comdove_fake_backend.Live.Engine.{hooks, on_frame, on_close, reset, wipe}
use comdove_fake_backend.Store.Groups.{get_auto_reply, set_auto_reply}

pub data Action : Type 0 where
  connects : Action
  frame : (session : ℕ) (binary : Bool) → Option Json → (now : ℕ) → Action
  closes : (session : ℕ) → Action
  reply_is_due : (index now : ℕ) → Action  -- the timer of a pending reply fires
  accepts : BusinessNumber → (wa_id text : Text) → (now : ℕ) → Action
  delivers : StoredMessage → (now : ℕ) → Action  -- the response to the request is written
  marks_read : BusinessNumber → (wamid : Text) → (now : ℕ) → Action
  rejects : RejectedRequest → Action
  injects : (from to body : Text) → (now : ℕ) → Action
  sets_presence : (number : Text) → (online : Bool) → (now : ℕ) → Action
  sets_auto_reply : (number : Text) → AutoReply → Action
  changes_groups : Db → Action  -- the groups router, which then calls `adminChanged('groups')`
  changes_numbers : Db → Action
  verifies : (passed : Bool) → (at : ℕ) → (detail : Text) → Action
  dispatches : Dispatcher Tables → List Text → Action  -- turns, and the `onChange` of each
  resets : (keep_numbers : Bool) → Action

unfoldable pub reply_at : ℕ → List PendingReply → Option PendingReply
reply_at n [] = none
reply_at zero (r ∷ rs) = some r
reply_at (suc n) (r ∷ rs) = reply_at n rs

unfoldable pub without_reply : ℕ → List PendingReply → List PendingReply
without_reply n [] = []
without_reply zero (r ∷ rs) = rs
without_reply (suc n) (r ∷ rs) = r ∷ without_reply n rs

-- `onChange` of the dispatcher: `log.changed` for each wamid.
unfoldable pub log_all : List Text → Db → Tables → Feed → Feed
unfolding on_event
log_all [] db t f = f
log_all (wamid ∷ rest) db t f = log_all rest db t (on_event (log_changed wamid) db t f)

-- The PUT of api/autoreply.route.ts from `setAutoReply` on, with the service `autoReplyChanged`.
unfoldable pub put_auto_reply : (number : Text) → AutoReply → LockTable → Server → Server
unfolding set_auto_reply get_auto_reply auto_reply_changed numbers_changed
put_auto_reply number ar locks w = elim (set_auto_reply number ar w.db) [
  | throw e ↦ w
  | Result.ok db ↦
      let saved = or_else (get_auto_reply (digits_only number) db) ar in
      with_feed (numbers_changed locks db) (auto_reply_changed number saved (record w { db = db }))
]

module _ (p : Platform) where
  -- A timer does not fire before it is due.
  unfoldable pub fire : ℕ → (now : ℕ) → Server → Server
  unfolding reply_at without_reply auto_reply_due
  fire n now w = elim (reply_at n w.bus.replies) [
    | none ↦ w
    | some r ↦
        if ltb now r.due
        then w
        else auto_reply_due p r now
            (with_feed (λ f. record f { replies = without_reply n f.replies }) w)
  ]

  unfoldable pub log_request : RejectedRequest → Server → Server
  unfolding log_rejected on_event
  log_request r w =
      emit (live_deps p) (BusEvent.log_rejected r) (record w { db = log_rejected r w.db })

  -- The actions that leave the sockets' sessions and the locks alone.
  unfoldable pub serve : Action → LockTable → Server → Server
  unfolding fire log_request set_presence put_auto_reply deliver receive accept mark_inbound_read
      lock_changed numbers_changed on_event log_all
  serve (reply_is_due n now) locks w = fire n now w
  serve (accepts b wa_id text now) locks w =
      (accept (live_deps p) b wa_id text (p.new_wamid w.bus.drawn) now (drawn_one w)).0
  serve (delivers m now) locks w = (deliver p m now w).0
  serve (marks_read b wamid now) locks w = mark_inbound_read (live_deps p) b wamid now w
  serve (rejects r) locks w = log_request r w
  serve (injects from to body now) locks w = (receive p from to body inject now w).0
  serve (sets_presence number online now) locks w = (set_presence p number online now locks w).0
  serve (sets_auto_reply number ar) locks w = put_auto_reply number ar locks w
  serve (changes_groups db) locks w = record w { db = db; bus = lock_changed locks db w.bus }
  serve (changes_numbers db) locks w = record w { db = db; bus = numbers_changed locks db w.bus }
  serve (verifies passed at detail) locks w = emit (live_deps p) (webhook_verify passed at detail) w
  serve (dispatches d wamids) locks w = record w {
    dispatcher = d;
    bus = log_all wamids w.db d.store w.bus;
  }
  serve _ locks w = w

  unfoldable pub act : Action → Live Server → Live Server
  unfolding on_frame on_close serve reset wipe
  act connects s = step (hooks p) SocketEvent.connects s
  act (frame i binary json now) s = on_frame p i binary json now s
  act (closes i) s = on_close p i s
  act (resets keep_numbers) s =
      reset p keep_numbers (record s { world = wipe keep_numbers s.world })
  act a s = record s { world = serve a s.lock s.world }

  unfoldable pub act_all : List Action → Live Server → Live Server
  unfolding act
  act_all [] s = s
  act_all (a ∷ rest) s = act_all rest (act a s)
