-- ===== src/Dev/MemoryRegistry/Agreement.antt =====
-- dev/memory-registry.ts beside core/messages.ts: what `getMessage` sees of a delivery.
use comdove_fake_backend.Base.{
  if◌then◌else◌, Bool-cases, Option-cases, find, Text, text_eq, text_eq_sound, has_text, ℕ, ◌≡◌,
  refl, sym, ap, ◌∙◌, inl, inr, some, List, [], ◌∷◌, map, arith,
}
use comdove_fake_backend.Contract.Types.{StoredMessage}
use comdove_fake_backend.Store.Tables.{Db}
use comdove_fake_backend.Store.Messages.{get_message, coalesce, set_delivered}
use comdove_fake_backend.Store.Messages.Marks.{with_delivery, get_message-set_delivered}
use comdove_fake_backend.Dev.MemoryRegistry.{
  MemoryRegistry, delivered_now, get_message as get_kept, set_delivered as set_kept,
}

delivered_now-coalesced :
    (ws : List Text) (at : ℕ) (m : StoredMessage)
    → delivered_now ws at m
      ≡ (if has_text m.wamid ws then record m { delivered_at = coalesce m.delivered_at at } else m)
delivered_now-coalesced ws at m = elim (Bool-cases (has_text m.wamid ws)) [
  | inr off ↦ rw off refl
  | inl on ↦ elim (Option-cases m.delivered_at) [
    | inl e ↦ rw (on, e) refl
    | inr (t, e) ↦ rw (on, e) refl
  ]
]

find-delivered_now :
    (x : Text) (ws : List Text) (at : ℕ) (ms : List StoredMessage)
    → find (λ m. text_eq m.wamid x) (map (delivered_now ws at) ms)
      ≡ with_delivery x ws at (find (λ m. text_eq m.wamid x) ms)
find-delivered_now x ws at [] = refl
find-delivered_now x ws at (m ∷ ms) =
    let same : (delivered_now ws at m).wamid ≡ m.wamid = ground arith in
    elim (Bool-cases (text_eq m.wamid x)) [
      | inr e ↦ rw (same, e) (find-delivered_now x ws at ms)
      | inl e ↦
          let named : m.wamid ≡ x = text_eq_sound m.wamid x e in
          rw (same, e, ← named) (ap some (delivered_now-coalesced ws at m))
    ]

-- The stand-in delivers as the store does: a message that both know alike before a delivery they
-- know alike after it, with the time of its first delivery.
pub set_delivered-agrees :
    (x : Text) (ws : List Text) (at : ℕ) (r : MemoryRegistry) (db : Db)
    → get_kept x r ≡ get_message x db
    → get_kept x (set_kept ws at r) ≡ get_message x (set_delivered ws at db)
unfolding get_kept set_kept
set_delivered-agrees x ws at r db same =
    find-delivered_now x ws at r.messages
    ∙ ap (with_delivery x ws at) same
    ∙ sym (get_message-set_delivered x ws at db)
