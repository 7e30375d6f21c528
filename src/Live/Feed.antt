-- ===== src/Live/Feed.antt =====
-- What the live engine keeps: the sockets with the frames written to them, the session index of
-- ws/session-index.ts, the state of ws/admin-feed.ts, and the timers of core/delivery.ts.
pub mod Kept
use comdove_fake_backend.Base.{
  ◌==◌, if◌then◌else◌, keep, any, is_empty, Text, text_eq, has_text, ℕ, ◌+◌, Bool, not, Option,
  none, some, List, [], ◌∷◌, ◌++◌,
}
use comdove_fake_backend.Contract.Events.{
  LogEntry, ServerEvent, log_entry, log_update, log_reset, groups_update, numbers_update,
}
use comdove_fake_backend.Store.Tables.{Db}
use comdove_fake_backend.Store.Groups.{Locks, list_groups}
use comdove_fake_backend.Store.Lists.{list_business_numbers, list_customers}
use comdove_fake_backend.Store.Log.{get_log_entry}
use comdove_fake_backend.Webhooks.JobStore.{Tables}
use comdove_fake_backend.Live.Lock.{LockTable, is_locked, locked_since}

-- A `setTimeout` of `autoReply` that has not fired.
pub record PendingReply : Type 0 where
  pub customer : Text
  pub business : Text
  pub reply : Text
  pub due : ℕ

-- `gone` are the sockets that are not open any more. `frames` is in the order of writing, `index`
-- and `admins` in that of insertion. `drawn` counts the random ids drawn so far.
pub record Feed : Type 0 where
  pub index : List (Text × ℕ)
  pub admins : List ℕ
  pub announced : List Text
  pub frames : List (ℕ × ServerEvent)
  pub gone : List ℕ
  pub replies : List PendingReply
  pub drawn : ℕ

abbrev pub has_number : ℕ → List ℕ → Bool
has_number n ns = any (λ m. m == n) ns

-- The session's `send`: only an open socket is written to.
unfoldable pub send : (session : ℕ) → ServerEvent → Feed → Feed
send i ev f = if has_number i f.gone then f else record f { frames = f.frames ++ (i, ev) ∷ [] }

-- `byGroup.get(groupId)`
unfoldable pub indexed : Text → List (Text × ℕ) → Option ℕ
indexed g [] = none
indexed g ((k, i) ∷ t) = if text_eq k g then some i else indexed g t

unfoldable pub set_indexed : Text → ℕ → List (Text × ℕ) → List (Text × ℕ)
set_indexed g i [] = (g, i) ∷ []
set_indexed g i ((k, j) ∷ t) = if text_eq k g then (k, i) ∷ t else (k, j) ∷ set_indexed g i t

unfoldable pub remove_indexed : Text → ℕ → List (Text × ℕ) → List (Text × ℕ)
unfolding indexed
remove_indexed g i t = elim (indexed g t) [
  | none ↦ t
  | some j ↦ if j == i then keep (λ e. not (text_eq e.0 g)) t else t
]

-- `broadcast`
unfoldable pub send_all : List ℕ → ServerEvent → Feed → Feed
unfolding send
send_all [] ev f = f
send_all (i ∷ is) ev f = send_all is ev (send i ev f)

unfoldable pub broadcast : ServerEvent → Feed → Feed
unfolding send_all
broadcast ev f = send_all f.admins ev f

abbrev pub shared_lock : LockTable → Locks
shared_lock locks = record {
  is_locked = λ g. is_locked g locks;
  locked_since = λ g. locked_since g locks;
}

abbrev pub groups_event : LockTable → Db → ServerEvent
groups_event locks db = groups_update (list_groups (shared_lock locks) db)

abbrev pub numbers_event : LockTable → Db → ServerEvent
numbers_event locks db =
    numbers_update (list_business_numbers db) (list_customers (shared_lock locks) db)

-- `subscribe` and `unsubscribe`
unfoldable pub subscribe : (session : ℕ) → LockTable → Db → Feed → Feed
unfolding send
subscribe i locks db f =
    let admins = if has_number i f.admins then f.admins else f.admins ++ i ∷ [] in
    send i (numbers_event locks db) (send i (groups_event locks db) (record f { admins = admins }))

unfoldable pub unsubscribe : (session : ℕ) → Feed → Feed
unsubscribe i f = record f { admins = keep (λ j. not (j == i)) f.admins }

-- `logChanged`, where an admin listens and the message is there.
unfoldable pub log_entry_changed : Text → LogEntry → Feed → Feed
unfolding broadcast
log_entry_changed wamid e f =
    if has_text wamid f.announced
    then broadcast (log_update e) f
    else broadcast (log_entry e) (record f { announced = f.announced ++ wamid ∷ [] })

unfoldable pub log_has_changed : (wamid : Text) → Db → Tables → Feed → Feed
unfolding log_entry_changed
log_has_changed wamid db t f =
    if is_empty f.admins
    then f
    else elim (get_log_entry wamid db t) [ none ↦ f | some e ↦ log_entry_changed wamid e f ]

unfoldable pub numbers_changed : LockTable → Db → Feed → Feed
unfolding broadcast
numbers_changed locks db f = broadcast (numbers_event locks db) f

-- `lockChanged`; `adminChanged('groups')` of live.ts does the same.
unfoldable pub lock_changed : LockTable → Db → Feed → Feed
unfolding broadcast numbers_changed
lock_changed locks db f = numbers_changed locks db (broadcast (groups_event locks db) f)

unfoldable pub admin_reset : LockTable → Db → Feed → Feed
unfolding broadcast lock_changed
admin_reset locks db f = lock_changed locks db (broadcast log_reset (record f { announced = [] }))
