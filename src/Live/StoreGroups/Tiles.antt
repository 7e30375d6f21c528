-- ===== src/Live/StoreGroups/Tiles.antt =====
-- What `tileOf` of ws/store-groups.ts shows of a customer's history.
use comdove_fake_backend.Base.{
  All, subst, length-map, ltb, if◌then◌else◌, Bool-cases, length, keep, drop, Text, text_eq,
  text_eq_sound, not, ℕ, zero, suc, ◌+◌, ◌-◌, ◌≤◌, min, ◌≡◌, refl, ap, ◌∙◌, inl, inr, Bool, false,
  ◌&&◌, List, [], ◌∷◌, ◌++◌, map, arith,
}
use comdove_fake_backend.Contract.Types.{
  Customer, StoredMessage, is_outbound, snapshot_history_per_tile,
}
use comdove_fake_backend.Store.Tables.{Db}
use comdove_fake_backend.Live.StoreGroups.Timeline.{Ascending, past_of-Ascending, Ascending-append}
use comdove_fake_backend.Live.Wire.{is_set, to_ws_message}
use comdove_fake_backend.Live.StoreGroups.{
  count_one, counts_as_unread, count_unread, newest, past_of, tile_of,
}

-- `unread[key] ?? 0`
abbrev pub count_of : Text → List (Text × ℕ) → ℕ
count_of key [] = 0
count_of key ((k, n) ∷ counts) = if text_eq k key then n else count_of key counts

-- A message of the business number that is delivered and not read.
abbrev pub unread_from : Text → StoredMessage → Bool
unread_from key m =
    (is_outbound m.direction && is_set m.delivered_at && not (is_set m.read_at))
    && text_eq m.from_number key

count_of-count_one :
    (key k : Text) (counts : List (Text × ℕ))
    → count_of key (count_one k counts) ≡ (if text_eq k key then 1 else 0) + count_of key counts
unfolding count_one
count_of-count_one key k [] = ground arith
count_of-count_one key k ((j, n) ∷ counts) = elim (Bool-cases (text_eq j k)) [
  | inl on ↦ let jk : j ≡ k = text_eq_sound j k on in rw (count_one, on, jk) (ground arith)
  | inr off ↦ elim (Bool-cases (text_eq k key)) [
    | inl same ↦
        let kk : k ≡ key = text_eq_sound k key same in
        let away : text_eq j key ≡ false = rw (← kk) off in
        rw (count_one, off, away, count_of-count_one key k counts, same) refl
    | inr other ↦
        let rest = count_of-count_one key k counts in rw (count_one, off) (ground (arith, rest))
  ]
]

count_unread-count_of :
    (key : Text) (ms : List StoredMessage) (counts : List (Text × ℕ))
    → count_of key (count_unread ms counts)
      ≡ length (keep (unread_from key) ms) + count_of key counts
unfolding count_unread
count_unread-count_of key [] counts = omega arith
count_unread-count_of key (m ∷ ms) counts =
    let one = count_of-count_one key m.from_number counts in
    elim (Bool-cases (counts_as_unread m)) [
      | inr off ↦ rw (count_unread, off) (count_unread-count_of key ms counts)
      | inl on ↦
          let rest = count_unread-count_of key ms (count_one m.from_number counts) in
          elim (Bool-cases (text_eq m.from_number key)) [
            | inl same ↦ rw (count_unread, on, same, rest, one, same) (omega arith)
            | inr other ↦ rw (count_unread, on, other, rest, one, other) (omega arith)
          ]
    ]

-- What `slice(-n)` leaves out comes before what it keeps.
drop-split :
    {A : Type 0} (n : ℕ) (xs : List A)
    → n ≤ length xs
    → (before : List A) × (xs ≡ before ++ drop n xs) × (length (drop n xs) + n ≡ length xs)
drop-split zero xs h = ([], refl, omega arith)
drop-split (suc n) [] h = absurd (omega (arith, h))
drop-split (suc n) (x ∷ xs) h =
    let (before, split, size) = drop-split n xs (omega (arith, h)) in
    (x ∷ before, ap (λ u. x ∷ u) split, omega (arith, size))

newest-split :
    (n : ℕ) (ms : List StoredMessage)
    → (before : List StoredMessage) × (ms ≡ before ++ newest n ms)
      × (length (newest n ms) ≡ min n (length ms))
unfolding newest
newest-split n ms = elim (Bool-cases (ltb n (length ms))) [
  | inr few ↦ rw (newest, few) ([], refl, ground arith)
  | inl many ↦
      let (before, split, size) = drop-split (length ms - n) ms (omega arith) in
      rw (newest, many) (before, split, ground (arith, size))
]

-- The tile of a customer shows the newest messages of its past, which is its history without the
-- queued messages: all of them up to 50, and 50 of them where there are more. None that it leaves
-- out is later than one that it shows, and it shows them in the order of their times.
pub tile_of-history :
    (db : Db) (c : Customer)
    → (before shown : List StoredMessage) × (past_of c.number db ≡ before ++ shown)
      × ((tile_of db c).history ≡ map to_ws_message shown)
      × (length (tile_of db c).history
          ≡ min snapshot_history_per_tile (length (past_of c.number db)))
      × All (λ a. All (λ b. a.created_at ≤ b.created_at) shown) before
      × Ascending shown
unfolding tile_of
tile_of-history db c =
    let (before, split, size) = newest-split snapshot_history_per_tile (past_of c.number db) in
    let shown = newest snapshot_history_per_tile (past_of c.number db) in
    let (earlier, order) =
      Ascending-append before shown (subst Ascending split (past_of-Ascending c.number db)) in
    (before, shown, split, refl, length-map to_ws_message shown ∙ size, earlier, order)

-- The unread count that the tile of a customer has for a business number is the number of messages
-- from it in the whole past, shown or not, that are delivered and not read.
pub tile_of-unread :
    (db : Db) (c : Customer) (key : Text)
    → count_of key (tile_of db c).unread ≡ length (keep (unread_from key) (past_of c.number db))
unfolding tile_of
tile_of-unread db c key = count_unread-count_of key (past_of c.number db) [] ∙ omega arith
