-- ===== src/Store/Log/Newest.antt =====
-- `getLog` of core/messages.ts against the whole log.
use comdove_fake_backend.Base.{
  length, take, insert_by, sort_by, ℕ, zero, suc, ◌≤◌, ◌≡◌, refl, ap, ap₂, ◌∙◌, List, [], ◌∷◌, ◌++◌,
  map, arith,
}
use comdove_fake_backend.Contract.Types.{StoredMessage, RejectedRequest}
use comdove_fake_backend.Store.Log.{to_log_entry, LogRow, logged, rejected, time_of, newer, get_log}
use comdove_fake_backend.Store.Log.Order.{
  Descending, sort_by-Descending, take-Descending, take_sorted,
}
use comdove_fake_backend.Store.Messages.{all_messages}
use comdove_fake_backend.Store.Tables.{Db}
use comdove_fake_backend.Live.Wire.{to_rejected_log_entry}
use comdove_fake_backend.Webhooks.JobStore.{Tables}

map-insert_by :
    {A : Type 0} {B : Type 0} (f : A → B) (time : B → ℕ) (x : A) (s : List A)
    → map f (insert_by (newer (λ a. time (f a))) x s) ≡ insert_by (newer time) (f x) (map f s)
unfolding insert_by
map-insert_by f time x [] = refl
map-insert_by f time x (y ∷ s) = ground (arith, map-insert_by f time x s)

map-sort_by :
    {A : Type 0} {B : Type 0} (f : A → B) (time : B → ℕ) (s : List A)
    → map f (sort_by (newer (λ a. time (f a))) s) ≡ sort_by (newer time) (map f s)
unfolding sort_by
map-sort_by f time [] = refl
map-sort_by f time (x ∷ s) =
    map-insert_by f time x (sort_by (newer (λ a. time (f a))) s)
    ∙ ap (insert_by (newer time) (f x)) (map-sort_by f time s)

map-take :
    {A : Type 0} {B : Type 0} (f : A → B) (n : ℕ) (s : List A) → map f (take n s) ≡ take n (map f s)
map-take f zero s = refl
map-take f (suc n) [] = refl
map-take f (suc n) (x ∷ s) = ap (λ u. f x ∷ u) (map-take f n s)

length-take-le : {A : Type 0} (n : ℕ) (s : List A) → length (take n s) ≤ n
length-take-le zero s = omega arith
length-take-le (suc n) [] = omega arith
length-take-le (suc n) (x ∷ s) = omega (arith, length-take-le n s)

abbrev message_row : Db → Tables → StoredMessage → LogRow
message_row db t m = logged (to_log_entry db t m)

abbrev rejected_row : RejectedRequest → LogRow
rejected_row r = rejected (to_rejected_log_entry r)

-- Everything that there is to log, newest first.
unfoldable pub whole_log : Db → Tables → List LogRow
unfolding sort_by
whole_log db t =
    sort_by (newer time_of)
      (map (message_row db t) (all_messages db) ++ map rejected_row db.rejected_requests)

-- The log is the start of the whole log: although it reads only the newest `limit` messages and
-- the newest `limit` rejected requests, no newer row is missing, and rows of one time stay in the
-- order of the whole log.
pub get_log-whole_log :
    (limit : ℕ) (db : Db) (t : Tables) → get_log limit db t ≡ take limit (whole_log db t)
unfolding get_log whole_log to_log_entry to_rejected_log_entry
get_log-whole_log limit db t =
    let f = message_row db t in
    let starts =
      map-take f limit (sort_by (newer (λ m. m.created_at)) (all_messages db))
      ∙ ap (take limit) (map-sort_by f time_of (all_messages db)) in
    let refused =
      map-take rejected_row limit (sort_by (newer (λ r. r.at)) db.rejected_requests)
      ∙ ap (take limit) (map-sort_by rejected_row time_of db.rejected_requests) in
    ap₂ (λ u v. take limit (sort_by (newer time_of) (u ++ v))) starts refused
    ∙ take_sorted time_of limit (map f (all_messages db)) (map rejected_row db.rejected_requests)

-- The log has at most `limit` rows, none of them newer than a row before it.
pub get_log-Descending :
    (limit : ℕ) (db : Db) (t : Tables)
    → (length (get_log limit db t) ≤ limit) × Descending time_of (get_log limit db t)
unfolding whole_log
get_log-Descending limit db t = rw (get_log-whole_log limit db t) (
  length-take-le limit (whole_log db t),
  take-Descending time_of limit (whole_log db t) (
      sort_by-Descending time_of
        (map (message_row db t) (all_messages db) ++ map rejected_row db.rejected_requests)),
)
