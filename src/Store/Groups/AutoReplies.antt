-- ===== src/Store/Groups/AutoReplies.antt =====
-- `setAutoReply` and `getAutoReply` of core/registry.ts.
use comdove_fake_backend.Base.{
  ltb, if◌then◌else◌, Bool-cases, is_some, keep, find, keep-append, Text, text_eq, text_eq_refl,
  digits_only, digits_only_idem, insert_by, sort_by, ℕ, ◌+◌, ◌≤◌, ◌≡◌, refl, ap, inl, inr, Bool,
  true, false, not, some, List, [], ◌∷◌, ◌++◌, map, arith,
}
use comdove_fake_backend.Contract.Types.{Rule, AutoReply, Customer, max_delay_ms}
use comdove_fake_backend.Store.Tables.{KeywordReply, Db, ok}
use comdove_fake_backend.Store.Registry.{get_customer}
use comdove_fake_backend.Store.Groups.{to_rule, get_auto_reply, numbered_rules, set_auto_reply}

abbrev by_position : KeywordReply → KeywordReply → Bool
by_position a b = ltb a.position b.position

-- Rows numbered in their order are in the order of their positions.
sort_numbered_rules :
    (n : Text) (rs : List Rule) (i : ℕ)
    → sort_by by_position (numbered_rules n rs i) ≡ numbered_rules n rs i
unfolding sort_by insert_by numbered_rules
sort_numbered_rules n [] i = refl
sort_numbered_rules n (r ∷ []) i = refl
sort_numbered_rules n (r ∷ q ∷ rs) i = rw (sort_numbered_rules n (q ∷ rs) (i + 1)) (ground arith)

keep_own_rules :
    (n : Text) (rs : List Rule) (i : ℕ)
    → keep (λ r. text_eq r.customer_number n) (numbered_rules n rs i) ≡ numbered_rules n rs i
unfolding numbered_rules
keep_own_rules n [] i = refl
keep_own_rules n (r ∷ rs) i = rw (text_eq_refl n, keep_own_rules n rs (i + 1)) refl

keep_none_left :
    (n : Text) (rs : List KeywordReply)
    → keep (λ r. text_eq r.customer_number n) (keep (λ r. not (text_eq r.customer_number n)) rs)
      ≡ []
keep_none_left n [] = refl
keep_none_left n (r ∷ rs) = ground (arith, keep_none_left n rs)

to_rules_numbered : (n : Text) (rs : List Rule) (i : ℕ) → map to_rule (numbered_rules n rs i) ≡ rs
unfolding numbered_rules
to_rules_numbered n [] i = refl
to_rules_numbered n (r ∷ rs) i = ap (λ (l : List Rule). r ∷ l) (to_rules_numbered n rs (i + 1))

abbrev pub configured : Text → AutoReply → Customer → Customer
configured n ar c =
    if text_eq c.number n
    then record c { reply_mode = ar.mode; reply_delay_ms = ar.delay_ms }
    else c

-- The row that the UPDATE changes is found with what it sets.
find-configured :
    (n : Text) (ar : AutoReply) (cs : List Customer)
    → is_some (find (λ c. text_eq c.number n) cs) ≡ true
    → (c : Customer) × (find (λ c. text_eq c.number n) (map (configured n ar) cs) ≡ some c)
      × (c.reply_mode ≡ ar.mode)
      × (c.reply_delay_ms ≡ ar.delay_ms)
find-configured n ar [] h = cc
find-configured n ar (c ∷ cs) h = elim (Bool-cases (text_eq c.number n)) [
  | inl e ↦
      rw (e, e) (record c { reply_mode = ar.mode; reply_delay_ms = ar.delay_ms }, refl, refl, refl)
  | inr e ↦ rw (e, e) (find-configured n ar cs (rw (← h, e) refl))
]

abbrev with_auto_reply : Text → AutoReply → Db → Db
with_auto_reply num ar db = record db {
  customers = map (configured num ar) db.customers;
  keyword_replies =
      keep (λ r. not (text_eq r.customer_number num)) db.keyword_replies
      ++ numbered_rules num ar.rules 0;
}

-- Setting the automatic reply of a customer, with a delay within the limit, succeeds, and what is
-- then read back for the number is what was set: mode, delay and the rules in their order.
pub set_auto_reply-get :
    (number : Text) (ar : AutoReply) (db : Db)
    → is_some (get_customer number db) ≡ true
    → ar.delay_ms ≤ max_delay_ms
    → (db' : Db) × (set_auto_reply number ar db ≡ ok db') × (get_auto_reply number db' ≡ some ar)
unfolding set_auto_reply get_auto_reply get_customer
set_auto_reply-get number ar db known low =
    let num = digits_only number in
    let (c, found, mode, delay) = find-configured num ar db.customers known in
    let same : get_customer num db ≡ get_customer number db =
      ap (λ (n : Text). find (λ x. text_eq x.number n) db.customers) (digits_only_idem number) in
    let fits : ltb max_delay_ms ar.delay_ms ≡ false = ground arith in
    let db' = with_auto_reply num ar db in
    (
      db',
      rw (set_auto_reply, same, known, fits) refl,
      rw
          (
            get_auto_reply,
            get_customer,
            found,
            mode,
            delay,
            keep-append (λ r. text_eq r.customer_number num)
                (keep (λ r. not (text_eq r.customer_number num)) db.keyword_replies)
                (numbered_rules num ar.rules 0),
            keep_none_left num db.keyword_replies,
            keep_own_rules num ar.rules 0,
            sort_numbered_rules num ar.rules 0,
            to_rules_numbered num ar.rules 0,
          )
          refl,
    )
