-- ===== src/Store/AutoReply.antt =====
-- core/autoreply.ts. `to_lower` is `String.prototype.toLowerCase`.
use comdove_fake_backend.Base.{
  ◌==◌, if◌then◌else◌, Bool-cases, find, is_empty, All, Text, ℕ, ◌≡◌, refl, ap, ◌⊎◌, inl, inr, Bool,
  true, false, ◌&&◌, ◌||◌, Option, none, some, List, [], ◌∷◌, ◌++◌,
}
use comdove_fake_backend.Contract.Types.{ReplyMode, manual, echo, keyword, Rule, AutoReply}
use comdove_fake_backend.Store.Tables.{Db}
use comdove_fake_backend.Store.Groups.{get_auto_reply}

-- `text.startsWith(part)`
unfoldable pub begins : (part text : Text) → Bool
begins [] s = true
begins (p ∷ ps) [] = false
begins (p ∷ ps) (c ∷ s) = p == c && begins ps s

-- `text.includes(part)`
unfoldable pub includes : (part text : Text) → Bool
unfolding begins
includes part [] = is_empty part
includes part (c ∷ cs) = begins part (c ∷ cs) || includes part cs

-- `reply ? { reply, delay_ms } : null`: an empty reply is none.
abbrev pub with_delay : ℕ → Option Text → Option (Text × ℕ)
with_delay delay none = none
with_delay delay (some reply) = if is_empty reply then none else some (reply, delay)

module _ (to_lower : Text → Text) where
  abbrev pub matches : Text → Rule → Bool
  matches body r = includes (to_lower r.keyword) (to_lower body)

  unfoldable pub pick_reply : ReplyMode → (body : Text) → List Rule → Option Text
  unfolding includes
  pick_reply echo body rules = some body
  pick_reply keyword body rules = elim (find (matches body) rules) [
    | none ↦ none
    | some hit ↦ some hit.reply
  ]
  pick_reply manual body rules = none

  abbrev pub reply_of : (body : Text) → Option AutoReply → Option (Text × ℕ)
  reply_of body none = none
  reply_of body (some ar) = with_delay ar.delay_ms (pick_reply ar.mode body ar.rules)

  unfoldable pub compute_reply : (number body : Text) → Db → Option (Text × ℕ)
  unfolding pick_reply get_auto_reply
  compute_reply number body db = reply_of body (get_auto_reply number db)

  -- What the automatic reply to a text is, by the configuration of the customer.
  pub data Answer (body : Text) : Option AutoReply → Option (Text × ℕ) → Type 0 where
    unknown : Answer body none none
    silent : (ar : AutoReply) → ar.mode ≡ manual → Answer body (some ar) none
    echoed :
        (ar : AutoReply)
        → ar.mode ≡ echo
        → is_empty body ≡ false
        → Answer body (some ar) (some (body, ar.delay_ms))
    empty_body :
        (ar : AutoReply) → ar.mode ≡ echo → is_empty body ≡ true → Answer body (some ar) none
    hits :
        (ar : AutoReply) (before after : List Rule) (hit : Rule)
        → ar.mode ≡ keyword
        → ar.rules ≡ before ++ hit ∷ after
        → All (λ r. matches body r ≡ false) before
        → matches body hit ≡ true
        → is_empty hit.reply ≡ false
        → Answer body (some ar) (some (hit.reply, ar.delay_ms))
    empty_reply :
        (ar : AutoReply) (before after : List Rule) (hit : Rule)
        → ar.mode ≡ keyword
        → ar.rules ≡ before ++ hit ∷ after
        → All (λ r. matches body r ≡ false) before
        → matches body hit ≡ true
        → is_empty hit.reply ≡ true
        → Answer body (some ar) none
    misses :
        (ar : AutoReply)
        → ar.mode ≡ keyword
        → All (λ r. matches body r ≡ false) ar.rules
        → Answer body (some ar) none

-- What `find` finds is the first, and where it finds nothing there is none.
find-first :
    {A : Type 0} (p : A → Bool) (xs : List A)
    → ((x : A) × (before : List A) × (after : List A) × (find p xs ≡ some x)
        × (xs ≡ before ++ x ∷ after)
        × All (λ y. p y ≡ false) before
        × (p x ≡ true))
      ⊎ ((find p xs ≡ none) × All (λ y. p y ≡ false) xs)
find-first p [] = inr (refl, tt)
find-first p (x ∷ xs) = elim (Bool-cases (p x)) [
  | inl on ↦ inl (x, [], xs, rw on refl, refl, tt, on)
  | inr off ↦ elim (find-first p xs) [
    | inl (y, before, after, e, s, h, on) ↦
        inl (y, x ∷ before, after, rw off e, ap (λ u. x ∷ u) s, (off, h), on)
    | inr (e, h) ↦ inr (rw off e, (off, h))
  ]
]

keyword-Answer :
    (to_lower : Text → Text) (body : Text) (ar : AutoReply)
    → ar.mode ≡ keyword
    → Answer to_lower body
        (some ar)
        (with_delay ar.delay_ms (pick_reply to_lower keyword body ar.rules))
unfolding pick_reply
keyword-Answer f body ar e = elim (find-first (matches f body) ar.rules) [
  | inr (miss, h) ↦ rw (pick_reply, miss) (misses ar e h)
  | inl (hit, before, after, found, split, h, on) ↦ elim (Bool-cases (is_empty hit.reply)) [
    | inl blank ↦ rw (pick_reply, found, blank) (empty_reply ar before after hit e split h on blank)
    | inr full ↦ rw (pick_reply, found, full) (hits ar before after hit e split h on full)
  ]
]

echo-Answer :
    (to_lower : Text → Text) (body : Text) (ar : AutoReply)
    → ar.mode ≡ echo
    → Answer to_lower body (some ar) (with_delay ar.delay_ms (some body))
echo-Answer f body ar e = elim (Bool-cases (is_empty body)) [
  | inl blank ↦ rw blank (empty_body ar e blank)
  | inr full ↦ rw full (echoed ar e full)
]

mode-Answer :
    (to_lower : Text → Text) (body : Text) (ar : AutoReply) (mode : ReplyMode)
    → ar.mode ≡ mode
    → Answer to_lower body
        (some ar)
        (with_delay ar.delay_ms (pick_reply to_lower mode body ar.rules))
unfolding pick_reply
mode-Answer f body ar manual e = silent ar e
mode-Answer f body ar echo e = echo-Answer f body ar e
mode-Answer f body ar keyword e = keyword-Answer f body ar e

configured-Answer :
    (to_lower : Text → Text) (body : Text) (o : Option AutoReply)
    → Answer to_lower body o (reply_of to_lower body o)
configured-Answer f body none = unknown
configured-Answer f body (some ar) = mode-Answer f body ar ar.mode refl

-- The automatic reply of a customer is decided by its configuration alone: none for an unknown
-- customer, in manual mode, and where the reply would be empty; the text itself in echo mode; and
-- in keyword mode the reply of the first rule whose keyword the text includes, case aside.
pub compute_reply-Answer :
    (to_lower : Text → Text) (number body : Text) (db : Db)
    → Answer to_lower body (get_auto_reply number db) (compute_reply to_lower number body db)
unfolding compute_reply
compute_reply-Answer f number body db = configured-Answer f body (get_auto_reply number db)
