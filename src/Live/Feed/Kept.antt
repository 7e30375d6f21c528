-- ===== src/Live/Feed/Kept.antt =====
-- What every single change of the live engine's state keeps, its operations keep.
use comdove_fake_backend.Base.{
  Bool-cases, Option-cases, is_empty, Text, text_eq, text_eq_sound, ℕ, ◌≡◌, refl, inl, inr, Bool,
  true, false, none, some, List, [], ◌∷◌, arith,
}
use comdove_fake_backend.Contract.Events.{LogEntry, ServerEvent, log_entry}
use comdove_fake_backend.Store.Tables.{Db}
use comdove_fake_backend.Store.Log.{to_log_entry, get_log_entry}
use comdove_fake_backend.Webhooks.JobStore.{Tables}
use comdove_fake_backend.Live.Lock.{LockTable}
use comdove_fake_backend.Live.Feed.{
  PendingReply, Feed, send, send_all, broadcast, groups_event, numbers_event, log_entry_changed,
  log_has_changed, numbers_changed, lock_changed,
}
use comdove_fake_backend.Store.Messages.{all_messages, get_message}
use comdove_fake_backend.Store.Messages.Stored.{find_sound}

abbrev pub is_log_entry : ServerEvent → Bool
is_log_entry (log_entry e) = true
is_log_entry _ = false

-- The single changes are: a frame that is no `log.entry`, a changed log entry, and what the timers
-- and the random ids change.
pub record Kept (I : Feed → Type 0) : Type 0 where
  pub on_send :
      (i : ℕ) (ev : ServerEvent) (f : Feed) → is_log_entry ev ≡ false → I f → I (send i ev f)
  pub on_log :
      (wamid : Text) (e : LogEntry) (f : Feed)
      → e.wamid ≡ wamid
      → I f
      → I (log_entry_changed wamid e f)
  pub on_timer : (rs : List PendingReply) (f : Feed) → I f → I (record f { replies = rs })
  pub on_draw : (n : ℕ) (f : Feed) → I f → I (record f { drawn = n })
  pub on_gone : (is : List ℕ) (f : Feed) → I f → I (record f { gone = is })

pub get_log_entry-wamid :
    (wamid : Text) (db : Db) (t : Tables) (e : LogEntry)
    → get_log_entry wamid db t ≡ some e
    → e.wamid ≡ wamid
unfolding get_log_entry get_message to_log_entry
get_log_entry-wamid wamid db t e h = elim (Option-cases (get_message wamid db)) [
  | inl x ↦ let clash : none ≡ some e = rw (← h, get_log_entry, x) refl in cc
  | inr (m, x) ↦
      let same : to_log_entry db t m ≡ e =
        let both : some (to_log_entry db t m) ≡ some e = rw (← h, get_log_entry, x) refl in
        ground arith in
      let found = find_sound (λ m. text_eq m.wamid wamid) (all_messages db) m x in
      rw (← same) (text_eq_sound m.wamid wamid found)
]

module _ {I : Feed → Type 0} (k : Kept I) where
  send_all-Keeps :
      (is : List ℕ) (ev : ServerEvent) (f : Feed)
      → is_log_entry ev ≡ false
      → I f
      → I (send_all is ev f)
  unfolding send_all
  send_all-Keeps [] ev f e h = h
  send_all-Keeps (i ∷ is) ev f e h = send_all-Keeps is ev (send i ev f) e (k.on_send i ev f e h)

  pub broadcast-Keeps :
      (ev : ServerEvent) (f : Feed) → is_log_entry ev ≡ false → I f → I (broadcast ev f)
  unfolding broadcast
  broadcast-Keeps ev f e h = send_all-Keeps f.admins ev f e h

  pub numbers_changed-Keeps :
      (locks : LockTable) (db : Db) (f : Feed) → I f → I (numbers_changed locks db f)
  unfolding numbers_changed
  numbers_changed-Keeps locks db f h = broadcast-Keeps (numbers_event locks db) f refl h

  pub lock_changed-Keeps :
      (locks : LockTable) (db : Db) (f : Feed) → I f → I (lock_changed locks db f)
  unfolding lock_changed
  lock_changed-Keeps locks db f h =
      numbers_changed-Keeps locks db (broadcast (groups_event locks db) f)
        (broadcast-Keeps (groups_event locks db) f refl h)

  pub log_has_changed-Keeps :
      (wamid : Text) (db : Db) (t : Tables) (f : Feed) → I f → I (log_has_changed wamid db t f)
  unfolding log_has_changed
  log_has_changed-Keeps wamid db t f h = elim (Bool-cases (is_empty f.admins)) [
    | inl e ↦ rw (log_has_changed, e) h
    | inr e ↦ elim (Option-cases (get_log_entry wamid db t)) [
      | inl e₁ ↦ rw (log_has_changed, e, e₁) h
      | inr (x, e₁) ↦
          rw (log_has_changed, e, e₁) (k.on_log wamid x f (get_log_entry-wamid wamid db t x e₁) h)
    ]
  ]
