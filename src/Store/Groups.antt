-- ===== src/Store/Groups.antt =====
-- The groups, the tiles and the automatic replies of core/registry.ts. `Locks` is what it reads of
-- the lock table: whether a group is locked, and since when.
pub mod AutoReplies
use comdove_fake_backend.Base.{
  ltb, leb, ◌==◌, if◌then◌else◌, is_some, length, keep, any, is_empty, Text, lit, text_eq, has_text,
  digits_only, trim, sort_by, ℕ, ◌+◌, ◌-◌, Bool, true, false, not, ◌&&◌, ◌||◌, Option, none, some,
  List, [], ◌∷◌, ◌++◌, map,
}
use comdove_fake_backend.Contract.Types.{
  manual, keyword, Rule, AutoReply, GroupSummary, CustomerItem, Customer, max_group_size,
  max_delay_ms,
}
use comdove_fake_backend.Store.Tables.{
  Group, KeywordReply, Db, listed_twice, group_size, bad_group_name, in_other_group, is_business,
  unknown_customer, constraint_failed, Result, ok, throw, ◌>>=◌, ◌>>◌, refuse,
}
use comdove_fake_backend.Store.Registry.{phone_number, get_business, get_customer}

pub record Locks : Type 0 where
  pub is_locked : Text → Bool
  pub locked_since : Text → Option ℕ

-- `[^a-z0-9]+`
abbrev is_slug_char : ℕ → Bool
is_slug_char c = (leb b'a' c && leb c b'z') || (leb b'0' c && leb c b'9')

-- `replace(/[^a-z0-9]+/g, '-')`; `gap` says whether the run of other characters has begun.
unfoldable pub hyphenate : Bool → Text → Text
hyphenate gap [] = []
hyphenate gap (c ∷ s) =
    let after_gap = hyphenate true s in
    if is_slug_char c then c ∷ hyphenate false s else if gap then after_gap else b'-' ∷ after_gap

-- `replace(/^-|-$/g, '')`
abbrev drop_first_hyphen : Text → Text
drop_first_hyphen [] = []
drop_first_hyphen (c ∷ s) = if c == b'-' then s else c ∷ s

unfoldable pub drop_last_hyphen : Text → Text
drop_last_hyphen [] = []
drop_last_hyphen (c ∷ s) =
    let rest = drop_last_hyphen s in if c == b'-' && is_empty s then [] else c ∷ rest

-- `clean.find((n, i) => clean.indexOf(n) !== i)`, where `seen` is what stands before
unfoldable pub first_repeat : List Text → List Text → Option Text
first_repeat seen [] = none
first_repeat seen (n ∷ ns) =
    let rest = first_repeat (seen ++ n ∷ []) ns in if has_text n seen then some n else rest

unfoldable pub phone_numbers : List Text → Result (List Text)
phone_numbers [] = ok []
phone_numbers (n ∷ ns) = do
  c ← phone_number n (lit "customer number")
  cs ← phone_numbers ns
  ok (c ∷ cs)

-- The first number that is a customer's or a business's is the one that the `for` loop throws on.
unfoldable pub check_free : List Text → Db → Result (Unit {0})
check_free [] db = ok tt
check_free (n ∷ ns) db = do
  refuse (is_some (get_customer n db)) (in_other_group n)
  refuse (is_some (get_business n db)) (is_business n)
  check_free ns db

abbrev refuse_some : Option Text → Result (Unit {0})
refuse_some none = ok tt
refuse_some (some n) = throw (listed_twice n)

-- `labels?.[num] ?? null`, as an association list
unfoldable pub label_of : Text → List (Text × Text) → Option Text
label_of n [] = none
label_of n ((k, l) ∷ ls) = if text_eq k n then some l else label_of n ls

unfoldable pub new_customers : Text → List (Text × Text) → List Text → ℕ → List Customer
unfolding label_of
new_customers id labels [] i = []
new_customers id labels (n ∷ ns) i =
    record {
      number = n;
      group_id = id;
      position = i;
      label = label_of n labels;
      online = true;
      reply_mode = manual;
      reply_delay_ms = 0;
    }
    ∷ new_customers id labels ns (i + 1)

-- The transaction. The numbers are no customers and stand once, so of its constraints only those
-- of `groups` can fail: the id and the name are unique.
unfoldable pub insert_group : Group → List Customer → Db → Result Db
insert_group g cs db = do
  refuse (any (λ x. text_eq x.id g.id || text_eq x.name g.name) db.groups) constraint_failed
  ok (record db { groups = db.groups ++ g ∷ []; customers = db.customers ++ cs })

-- `to_lower` is `String.prototype.toLowerCase`.
module _ (to_lower : Text → Text) where
  unfoldable pub slugify : Text → Text
  unfolding hyphenate drop_last_hyphen trim
  slugify name = drop_last_hyphen (drop_first_hyphen (hyphenate false (to_lower (trim name))))

  unfoldable pub create_group :
      (name : Text) (numbers : List Text) (labels : List (Text × Text)) (now : ℕ) (db : Db)
      → Result (Text × List Text × Db)
  unfolding slugify first_repeat phone_numbers check_free new_customers insert_group
  create_group name numbers labels now db = do
    refuse (ltb (length numbers) 1 || ltb max_group_size (length numbers)) group_size
    refuse (is_empty (slugify name)) bad_group_name
    clean ← phone_numbers numbers
    refuse_some (first_repeat [] clean)
    check_free clean db
    db' ←
        insert_group (record { id = slugify name; name = name; created_at = now })
          (new_customers (slugify name) labels clean 0) db
    ok (slugify name, clean, db')

module _ (locks : Locks) where
  unfoldable pub to_summary : Db → Group → GroupSummary
  to_summary db g = record {
    id = g.id;
    name = g.name;
    count = length (keep (λ c. text_eq c.group_id g.id) db.customers);
    locked = locks.is_locked g.id;
    locked_since = locks.locked_since g.id;
  }

  unfoldable pub list_groups : Db → List GroupSummary
  unfolding to_summary
  list_groups db = map (to_summary db) (sort_by (λ a b. ltb a.created_at b.created_at) db.groups)

  -- The customers of the group go with it, and their keyword rules with them: the result is
  -- `(ok, locked)`.
  unfoldable pub delete_group : Text → Db → (Bool × Bool) × Db
  delete_group id db = if locks.is_locked id then ((false, true), db) else (
    (any (λ g. text_eq g.id id) db.groups, false),
    record db {
      groups = keep (λ g. not (text_eq g.id id)) db.groups;
      customers = keep (λ c. not (text_eq c.group_id id)) db.customers;
      keyword_replies =
          keep
            (λ r.
              not (
                any (λ c. text_eq c.number r.customer_number && text_eq c.group_id id)
                  db.customers))
            db.keyword_replies;
    },
  )

  unfoldable pub to_item : Customer → CustomerItem
  to_item c = record {
    number = c.number;
    label = c.label;
    group_id = c.group_id;
    online = c.online;
    effective_online = c.online && locks.is_locked c.group_id;
    claimed = locks.is_locked c.group_id;
    reply_mode = c.reply_mode;
  }

unfoldable pub list_group_tiles : Text → Db → List Customer
list_group_tiles id db =
    sort_by (λ a b. ltb a.position b.position) (keep (λ c. text_eq c.group_id id) db.customers)

abbrev pub to_rule : KeywordReply → Rule
to_rule r = record { keyword = r.keyword; reply = r.reply }

unfoldable pub get_auto_reply : Text → Db → Option AutoReply
get_auto_reply number db = elim (get_customer number db) [
  | none ↦ none
  | some c ↦ some (record {
    mode = c.reply_mode;
    delay_ms = c.reply_delay_ms;
    rules = map to_rule (
        sort_by (λ a b. ltb a.position b.position)
          (keep (λ r. text_eq r.customer_number (digits_only number)) db.keyword_replies));
  })
]

unfoldable pub numbered_rules : Text → List Rule → ℕ → List KeywordReply
numbered_rules number [] i = []
numbered_rules number (r ∷ rs) i =
    record { customer_number = number; position = i; keyword = r.keyword; reply = r.reply }
    ∷ numbered_rules number rs (i + 1)

-- The UPDATE has the CHECK of `reply_delay_ms`; a mode is one of the three by its type.
unfoldable pub set_auto_reply : Text → AutoReply → Db → Result Db
unfolding numbered_rules
set_auto_reply number ar db =
    let num = digits_only number in
    do
      refuse (not (is_some (get_customer num db))) (unknown_customer num)
      refuse (ltb max_delay_ms ar.delay_ms) constraint_failed
      ok (record db {
        customers =
            map
              (λ c.
                if text_eq c.number num
                then record c { reply_mode = ar.mode; reply_delay_ms = ar.delay_ms }
                else c)
              db.customers;
        keyword_replies =
            keep (λ r. not (text_eq r.customer_number num)) db.keyword_replies
            ++ numbered_rules num ar.rules 0;
      })

-- `resetAll`, but for the tables of webhooks/job-store.ts, which its `clear` empties.
unfoldable pub reset_all : (keep_numbers : Bool) → Db → Db
reset_all keep_numbers db =
    let cleared = record db { rejected_requests = []; messages = []; conversations = [] } in
    if keep_numbers
    then cleared
    else record cleared { keyword_replies = []; customers = []; groups = []; business_numbers = [] }
