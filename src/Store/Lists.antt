-- ===== src/Store/Lists.antt =====
-- `listBusinessNumbers` and `listCustomers` of core/registry.ts.
use comdove_fake_backend.Base.{
  ltb, ◌==◌, Text, text_eq, sort_by, Bool, true, false, ◌&&◌, ◌||◌, List, [], ◌∷◌, map,
}
use comdove_fake_backend.Contract.Types.{BusinessNumber, CustomerItem}
use comdove_fake_backend.Store.Tables.{Db}
use comdove_fake_backend.Store.Groups.{Locks, to_item}

unfoldable pub list_business_numbers : Db → List BusinessNumber
list_business_numbers db = sort_by (λ a b. ltb a.created_at b.created_at) db.business_numbers

-- The order of texts: that of their code units.
unfoldable pub text_before : Text → Text → Bool
text_before s [] = false
text_before [] (d ∷ t) = true
text_before (c ∷ s) (d ∷ t) = ltb c d || (c == d && text_before s t)

unfoldable pub list_customers : Locks → Db → List CustomerItem
unfolding text_before
list_customers locks db = map (to_item locks) (
    sort_by
      (λ a b.
        text_before a.group_id b.group_id
        || (text_eq a.group_id b.group_id && ltb a.position b.position))
      db.customers)
