-- ===== src/Store/Messages/Marks.antt =====
-- `setDelivered` of core/messages.ts, as `getMessage` sees it.
use comdove_fake_backend.Base.{
  ◌==◌, if◌then◌else◌, Bool-cases, Option-cases, find, Text, text_eq, text_eq_sound, has_text, ℕ,
  ◌≡◌, refl, ap, subst, ◌∙◌, inl, inr, Option, none, some, List, [], ◌∷◌, map, arith,
}
use comdove_fake_backend.Contract.Types.{StoredMessage}
use comdove_fake_backend.Store.Tables.{Conversation, Message, Db}
use comdove_fake_backend.Store.Messages.{
  joined, select_messages, all_messages, get_message, coalesce, mark_delivered, set_delivered,
}
use comdove_fake_backend.Store.Messages.Stored.{find_sound}

abbrev delivered_from : ℕ → StoredMessage → StoredMessage
delivered_from at m = record m { delivered_at = coalesce m.delivered_at at }

abbrev mark_stored : ℕ → Text → StoredMessage → StoredMessage
mark_stored at w m = if text_eq m.wamid w then delivered_from at m else m

joined-mark :
    (at : ℕ) (w : Text) (r : Message) (c : Conversation)
    → joined (mark_delivered at w r) c ≡ mark_stored at w (joined r c)
joined-mark at w r c = elim (Bool-cases (text_eq r.wamid w)) [
  | inl e ↦ rw e refl
  | inr e ↦ rw e refl
]

mark_conversation :
    (at : ℕ) (w : Text) (r : Message) → (mark_delivered at w r).conversation_id ≡ r.conversation_id
mark_conversation at w r = ground arith

-- A row and its marked form join the same conversation.
row-mark :
    (at : ℕ) (w : Text) (r q : Message) (rs qs : List Message) (cs : List Conversation)
    → q.conversation_id ≡ r.conversation_id
    → ((c : Conversation) → joined q c ≡ mark_stored at w (joined r c))
    → select_messages qs cs ≡ map (mark_stored at w) (select_messages rs cs)
    → select_messages (q ∷ qs) cs ≡ map (mark_stored at w) (select_messages (r ∷ rs) cs)
unfolding select_messages
row-mark at w r q rs qs cs same marked rest =
    let moved = ap (λ id. find (λ (c : Conversation). c.id == id) cs) same in
    elim (Option-cases (find (λ c. c.id == r.conversation_id) cs)) [
      | inl e ↦ rw (select_messages, moved, e) rest
      | inr (c, e) ↦ rw (select_messages, moved, e, marked c, rest) refl
    ]

select_messages-mark :
    (at : ℕ) (w : Text) (rs : List Message) (cs : List Conversation)
    → select_messages (map (mark_delivered at w) rs) cs
      ≡ map (mark_stored at w) (select_messages rs cs)
unfolding select_messages
select_messages-mark at w [] cs = refl
select_messages-mark at w (r ∷ rs) cs =
    row-mark at w r (mark_delivered at w r) rs (map (mark_delivered at w) rs) cs
      (mark_conversation at w r) (joined-mark at w r) (select_messages-mark at w rs cs)

abbrev option_mark : ℕ → Text → Option StoredMessage → Option StoredMessage
option_mark at w none = none
option_mark at w (some m) = some (mark_stored at w m)

find-mark :
    (at : ℕ) (w x : Text) (ms : List StoredMessage)
    → find (λ m. text_eq m.wamid x) (map (mark_stored at w) ms)
      ≡ option_mark at w (find (λ m. text_eq m.wamid x) ms)
find-mark at w x [] = refl
find-mark at w x (m ∷ ms) =
    let same : (mark_stored at w m).wamid ≡ m.wamid = ground arith in
    elim (Bool-cases (text_eq m.wamid x)) [
      | inl e ↦ rw (same, e) refl
      | inr e ↦ rw (same, e) (find-mark at w x ms)
    ]

get_message-mark :
    (at : ℕ) (w x : Text) (db : Db)
    → get_message x (record db { messages = map (mark_delivered at w) db.messages })
      ≡ option_mark at w (get_message x db)
unfolding get_message
get_message-mark at w x db =
    rw (get_message, select_messages-mark at w db.messages db.conversations)
      (find-mark at w x (all_messages db))

-- A message is delivered from the first time that it is marked on.
abbrev pub with_delivery : Text → List Text → ℕ → Option StoredMessage → Option StoredMessage
with_delivery x ws at none = none
with_delivery x ws at (some m) =
    some (if has_text x ws then record m { delivered_at = coalesce m.delivered_at at } else m)

text_eq_comm : (s t : Text) → text_eq s t ≡ text_eq t s
text_eq_comm s t = elim (Bool-cases (text_eq s t)) [
  | inl e ↦ let same : s ≡ t = text_eq_sound s t e in rw same refl
  | inr e ↦ elim (Bool-cases (text_eq t s)) [
    | inl f ↦ let same : t ≡ s = text_eq_sound t s f in rw same refl
    | inr f ↦ rw (e, f) refl
  ]
]

coalesce_twice : (o : Option ℕ) (at : ℕ) → coalesce (coalesce o at) at ≡ coalesce o at
coalesce_twice none at = refl
coalesce_twice (some t) at = refl

with_delivery-mark :
    (w : Text) (ws : List Text) (at : ℕ) (m : StoredMessage)
    → with_delivery m.wamid ws at (some (mark_stored at w m))
      ≡ with_delivery m.wamid (w ∷ ws) at (some m)
with_delivery-mark w ws at m =
    let swap = text_eq_comm w m.wamid in
    elim (Bool-cases (text_eq m.wamid w)) [
      | inr off ↦ rw (swap, off) refl
      | inl on ↦ elim (Bool-cases (has_text m.wamid ws)) [
        | inl again ↦ rw (swap, on, again, coalesce_twice m.delivered_at at) refl
        | inr once ↦ rw (swap, on, once) refl
      ]
    ]

-- After `setDelivered` each of its messages is delivered: at the time that it was delivered at
-- before, if it was, and at the new time otherwise. No other message is changed.
pub get_message-set_delivered :
    (x : Text) (ws : List Text) (at : ℕ) (db : Db)
    → get_message x (set_delivered ws at db) ≡ with_delivery x ws at (get_message x db)
unfolding set_delivered get_message
get_message-set_delivered x [] at db = elim (Option-cases (get_message x db)) [
  | inl e ↦ rw (set_delivered, e) refl
  | inr (m, e) ↦ rw (set_delivered, e) refl
]
get_message-set_delivered x (w ∷ ws) at db =
    let db₁ : Db = record db { messages = map (mark_delivered at w) db.messages } in
    get_message-set_delivered x ws at db₁
    ∙ ap (with_delivery x ws at) (get_message-mark at w x db)
    ∙ elim (Option-cases (get_message x db)) [
      | inl e ↦ rw e refl
      | inr (m, e) ↦
          let found = find_sound (λ m. text_eq m.wamid x) (all_messages db) m e in
          let named : m.wamid ≡ x = text_eq_sound m.wamid x found in
          rw e (
            subst
              (λ y.
                with_delivery y ws at (some (mark_stored at w m))
                ≡ with_delivery y (w ∷ ws) at (some m))
              named (with_delivery-mark w ws at m))
    ]
