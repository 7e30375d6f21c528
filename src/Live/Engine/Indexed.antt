-- ===== src/Live/Engine/Indexed.antt =====
-- The session index of ws/session-index.ts against the locks of ws/lock.ts, as live.ts fills it.
use comdove_fake_backend.Base.{
  ◌==◌, if◌then◌else◌, Bool-cases, Option-cases, keep, Text, text_eq, text_eq_sound, has_text, ℕ,
  ◌≡◌, refl, ap, ◌∙◌, inl, inr, false, not, Option, none, some, List, [], ◌∷◌, ◌++◌, arith,
}
use comdove_fake_backend.Contract.Events.{LogEntry, ServerEvent, log_entry, log_update}
use comdove_fake_backend.Live.Lock.{Held, LockTable, holder, release, holder-added, holder-removed}
use comdove_fake_backend.Live.Feed.{
  Feed, has_number, send, indexed, set_indexed, remove_indexed, send_all, broadcast,
  log_entry_changed,
}
use comdove_fake_backend.Live.Feed.Kept.{Kept}

indexed-set :
    (g k : Text) (i : ℕ) (t : List (Text × ℕ))
    → indexed k (set_indexed g i t) ≡ (if text_eq g k then some i else indexed k t)
unfolding indexed set_indexed
indexed-set g k i [] = ground arith
indexed-set g k i ((j, x) ∷ t) = elim (Bool-cases (text_eq j g)) [
  | inl on ↦ let jg : j ≡ g = text_eq_sound j g on in rw (set_indexed, on, jg) (ground arith)
  | inr off ↦ elim (Bool-cases (text_eq g k)) [
    | inl same ↦
        let gk : g ≡ k = text_eq_sound g k same in
        let away : text_eq j k ≡ false = rw (← gk) off in
        rw (set_indexed, off, indexed, away, indexed-set g k i t, same) refl
    | inr other ↦ rw (set_indexed, off, indexed, indexed-set g k i t, other) refl
  ]
]

indexed-removed :
    (g k : Text) (t : List (Text × ℕ))
    → indexed k (keep (λ e. not (text_eq e.0 g)) t) ≡ (if text_eq g k then none else indexed k t)
unfolding indexed
indexed-removed g k [] = ground arith
indexed-removed g k ((j, x) ∷ t) = elim (Bool-cases (text_eq j g)) [
  | inl on ↦
      let jg : j ≡ g = text_eq_sound j g on in
      rw (indexed, on, jg, indexed-removed g k t) (ground arith)
  | inr off ↦ elim (Bool-cases (text_eq g k)) [
    | inl same ↦
        let gk : g ≡ k = text_eq_sound g k same in
        let away : text_eq j k ≡ false = rw (← gk) off in
        rw (indexed, off, away, indexed-removed g k t, same) refl
    | inr other ↦ rw (indexed, off, indexed-removed g k t, other) refl
  ]
]

abbrev pub owner_of : Option Held → Option ℕ
owner_of none = none
owner_of (some h) = some h.owner

-- The index has, for each group, the holder of its lock.
abbrev pub Matches : LockTable → List (Text × ℕ) → Type 0
Matches lock index = (g : Text) → indexed g index ≡ owner_of (holder g lock)

pub claimed-Matches :
    (g : Text) (i now : ℕ) (lock : LockTable) (index : List (Text × ℕ))
    → holder g lock ≡ none
    → Matches lock index
    → Matches (lock ++ (g, record { owner = i; since = now }) ∷ []) (set_indexed g i index)
claimed-Matches g i now lock index free m k =
    indexed-set g k i index
    ∙ rw (holder-added g k (record { owner = i; since = now }) lock free, m k) (ground arith)

pub released-Matches :
    (g : Text) (i : ℕ) (lock : LockTable) (index : List (Text × ℕ))
    → Matches lock index
    → Matches (release g i lock).1 (remove_indexed g i index)
unfolding release remove_indexed
released-Matches g i lock index m k = elim (Option-cases (holder g lock)) [
  | inl e ↦
      let none_indexed : indexed g index ≡ none = m g ∙ ap owner_of e in
      rw (release, e, remove_indexed, none_indexed) (m k)
  | inr (h, e) ↦
      let found : indexed g index ≡ some h.owner = m g ∙ ap owner_of e in
      elim (Bool-cases (h.owner == i)) [
        | inr other ↦ rw (release, e, remove_indexed, found, other) (m k)
        | inl own ↦
            rw (release, e, remove_indexed, found, own)
              (indexed-removed g k index ∙ rw (holder-removed g k lock, m k) (ground arith))
      ]
]

pub send-index : (i : ℕ) (ev : ServerEvent) (f : Feed) → (send i ev f).index ≡ f.index
unfolding send
send-index i ev f = elim (Bool-cases (has_number i f.gone)) [
  | inl e ↦ rw (send, e) refl
  | inr e ↦ rw (send, e) refl
]

send_all-index : (is : List ℕ) (ev : ServerEvent) (f : Feed) → (send_all is ev f).index ≡ f.index
unfolding send_all
send_all-index [] ev f = refl
send_all-index (i ∷ is) ev f = send_all-index is ev (send i ev f) ∙ send-index i ev f

log_entry_changed-index :
    (wamid : Text) (e : LogEntry) (f : Feed) → (log_entry_changed wamid e f).index ≡ f.index
unfolding log_entry_changed broadcast
log_entry_changed-index wamid e f = elim (Bool-cases (has_text wamid f.announced)) [
  | inl x ↦ rw (log_entry_changed, x) (send_all-index f.admins (log_update e) f)
  | inr x ↦
      rw (log_entry_changed, x)
        (send_all-index f.admins (log_entry e) (record f { announced = f.announced ++ wamid ∷ [] }))
]

-- The single changes leave the index alone.
pub same_index-Kept : (index : List (Text × ℕ)) → Kept (λ f. f.index ≡ index)
same_index-Kept index = record {
  on_send = λ i ev f e h. send-index i ev f ∙ h;
  on_log = λ wamid e f same h. log_entry_changed-index wamid e f ∙ h;
  on_timer = λ rs f h. h;
  on_draw = λ n f h. h;
  on_gone = λ is f h. h;
}
