-- ===== src/Live/Engine/Actions/Kept.antt =====
-- What every single change of the live engine's state keeps, the other actions keep.
use comdove_fake_backend.Live.Bus.{on_event}
use comdove_fake_backend.Live.Lock.{LockTable}
use comdove_fake_backend.Store.Log.{log_rejected}
use comdove_fake_backend.Base.{
  ltb, Bool-cases, Option-cases, or_else, Text, digits_only, ℕ, suc, refl, inl, inr, List, [], ◌∷◌,
}
use comdove_fake_backend.Contract.Types.{inject, AutoReply, RejectedRequest}
use comdove_fake_backend.Contract.Events.{log_reset}
use comdove_fake_backend.Store.Tables.{Db}
use comdove_fake_backend.Store.Groups.{get_auto_reply, set_auto_reply}
use comdove_fake_backend.Webhooks.JobStore.{Tables}
use comdove_fake_backend.Lifecycle.{BusEvent, log_changed, webhook_verify}
use comdove_fake_backend.Lifecycle.Kept.{Result-cases, accept-Keeps, mark_inbound_read-Keeps}
use comdove_fake_backend.Live.Feed.{Feed, broadcast, admin_reset}
use comdove_fake_backend.Live.Feed.Kept.{
  Kept, broadcast-Keeps, numbers_changed-Keeps, lock_changed-Keeps,
}
use comdove_fake_backend.Live.Delivery.{Platform, Server, live_deps, with_feed, drawn_one}
use comdove_fake_backend.Live.Delivery.Kept.{
  on_event-Keeps, receive-Keeps, auto_reply_due-Keeps, deliver-Keeps,
}
use comdove_fake_backend.Live.GroupEvents.{auto_reply_changed}
use comdove_fake_backend.Live.GroupEvents.Kept.{set_presence-Keeps, auto_reply_changed-Keeps}
use comdove_fake_backend.Live.Engine.Actions.{
  serve, Action, connects, frame, closes, reply_is_due, accepts, delivers, marks_read, rejects,
  injects, sets_presence, sets_auto_reply, changes_groups, changes_numbers, verifies, dispatches,
  resets, reply_at, without_reply, log_all, put_auto_reply, fire, log_request,
}

module _ {I : Feed → Type 0} (k : Kept I) where
  log_all-Keeps :
      (wamids : List Text) (db : Db) (t : Tables) (f : Feed) → I f → I (log_all wamids db t f)
  unfolding log_all
  log_all-Keeps [] db t f h = h
  log_all-Keeps (x ∷ xs) db t f h =
      log_all-Keeps xs db t (on_event (log_changed x) db t f)
        (on_event-Keeps k (log_changed x) db t f h)

  put_auto_reply-Keeps :
      (number : Text) (ar : AutoReply) (locks : LockTable) (w : Server)
      → I w.bus
      → I (put_auto_reply number ar locks w).bus
  unfolding put_auto_reply
  put_auto_reply-Keeps number ar locks w h = elim (Result-cases (set_auto_reply number ar w.db)) [
    | inr (x, e) ↦ rw (put_auto_reply, e) h
    | inl (db, e) ↦
        let saved = or_else (get_auto_reply (digits_only number) db) ar in
        let w₁ : Server = record w { db = db } in
        rw (put_auto_reply, e)
          (numbers_changed-Keeps k locks db (auto_reply_changed number saved w₁).bus
            (auto_reply_changed-Keeps k number saved w₁ h))
  ]

  fire-Keeps : (p : Platform) (n now : ℕ) (w : Server) → I w.bus → I (fire p n now w).bus
  unfolding fire
  fire-Keeps p n now w h = elim (Option-cases (reply_at n w.bus.replies)) [
    | inl e ↦ rw (fire, e) h
    | inr (r, e) ↦ elim (Bool-cases (ltb now r.due)) [
      | inl e₁ ↦ rw (fire, e, e₁) h
      | inr e₁ ↦
          rw (fire, e, e₁)
            (auto_reply_due-Keeps k p r now
              (with_feed (λ f. record f { replies = without_reply n f.replies }) w)
              (k.on_timer (without_reply n w.bus.replies) w.bus h))
    ]
  ]

  log_request-Keeps :
      (p : Platform) (r : RejectedRequest) (w : Server) → I w.bus → I (log_request p r w).bus
  unfolding log_request
  log_request-Keeps p r w h =
      on_event-Keeps k (BusEvent.log_rejected r) (log_rejected r w.db) w.dispatcher.store w.bus h

  pub admin_reset-Keeps :
      (locks : LockTable) (db : Db) (f : Feed)
      → I (record f { announced = [] })
      → I (admin_reset locks db f)
  unfolding admin_reset
  admin_reset-Keeps locks db f h =
      lock_changed-Keeps k locks db (broadcast log_reset (record f { announced = [] }))
        (broadcast-Keeps k log_reset (record f { announced = [] }) refl h)

  pub serve-Keeps :
      (p : Platform) (a : Action) (locks : LockTable) (w : Server)
      → I w.bus
      → I (serve p a locks w).bus
  unfolding serve
  serve-Keeps p (reply_is_due n now) locks w h = fire-Keeps p n now w h
  serve-Keeps p (accepts b wa_id text now) locks w h =
      accept-Keeps (live_deps p) I (on_event-Keeps k) b wa_id text (p.new_wamid w.bus.drawn) now
        (drawn_one w) (k.on_draw (suc w.bus.drawn) w.bus h)
  serve-Keeps p (delivers m now) locks w h = deliver-Keeps k p m now w h
  serve-Keeps p (marks_read b wamid now) locks w h =
      mark_inbound_read-Keeps (live_deps p) I (on_event-Keeps k) b wamid now w h
  serve-Keeps p (rejects r) locks w h = log_request-Keeps p r w h
  serve-Keeps p (injects from to body now) locks w h = receive-Keeps k p from to body inject now w h
  serve-Keeps p (sets_presence n online now) locks w h =
      set_presence-Keeps k p n online now locks w h
  serve-Keeps p (sets_auto_reply n ar) locks w h = put_auto_reply-Keeps n ar locks w h
  serve-Keeps p (changes_groups db) locks w h = lock_changed-Keeps k locks db w.bus h
  serve-Keeps p (changes_numbers db) locks w h = numbers_changed-Keeps k locks db w.bus h
  serve-Keeps p (verifies passed at detail) locks w h =
      on_event-Keeps k (webhook_verify passed at detail) w.db w.dispatcher.store w.bus h
  serve-Keeps p (dispatches d wamids) locks w h = log_all-Keeps wamids w.db d.store w.bus h
  serve-Keeps p connects locks w h = h
  serve-Keeps p (frame i b json now) locks w h = h
  serve-Keeps p (closes i) locks w h = h
  serve-Keeps p (resets keep_numbers) locks w h = h
