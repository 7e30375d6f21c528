-- ===== src/Dev/MemoryRegistry/Dense.antt =====
-- The numbering of dev/memory-registry.ts.
use comdove_fake_backend.Base.{
  if◌then◌else◌, Bool-cases, Option-cases, is_some, length, keep, Text, text_eq, text_eq_refl,
  text_eq_sound, ℕ, suc, ◌+◌, ◌≡◌, refl, sym, ap, ◌∙◌, inl, inr, Bool, true, Option, none, some,
  List, [], ◌∷◌, ◌++◌, map, arith,
}
use comdove_fake_backend.Contract.Types.{StoredMessage}
use comdove_fake_backend.Store.Messages.{PortMessage}
use comdove_fake_backend.Dev.MemoryRegistry.{
  MemoryConversation, MemoryRegistry, key_of, kept_at, conversation_at, step_seq, store_message,
}

abbrev pub count_if : (StoredMessage → Bool) → List StoredMessage → ℕ
count_if p ms = length (keep p ms)

abbrev pub is_at : Text → StoredMessage → Bool
is_at key m = text_eq (key_of m.phone_number_id m.customer_number) key

-- The number that the next message with a key gets.
abbrev pub next_at : Option MemoryConversation → ℕ
next_at none = 1
next_at (some c) = c.next_seq

-- Each conversation is numbered without a gap.
unfoldable pub Dense : MemoryRegistry → Type 0
unfolding kept_at
Dense r =
    (key : Text) → next_at (kept_at key r.conversations) ≡ suc (count_if (is_at key) r.messages)

count_if-append :
    (p : StoredMessage → Bool) (ms : List StoredMessage) (m : StoredMessage)
    → count_if p (ms ++ m ∷ []) ≡ count_if p ms + (if p m then 1 else 0)
count_if-append p [] m = ground arith
count_if-append p (x ∷ ms) m = ground (arith, count_if-append p ms m)

count_if-map :
    (p : StoredMessage → Bool) (f : StoredMessage → StoredMessage)
    (same : (m : StoredMessage) → p (f m) ≡ p m) (ms : List StoredMessage)
    → count_if p (map f ms) ≡ count_if p ms
count_if-map p f same [] = refl
count_if-map p f same (m ∷ ms) = elim (Bool-cases (p m)) [
  | inl e ↦ rw (same m, e) (ap suc (count_if-map p f same ms))
  | inr e ↦ rw (same m, e) (count_if-map p f same ms)
]

-- The next number of a key, after `conv.nextSeq++` for another key or the same.
next_at-step :
    (key k : Text) (cs : List MemoryConversation)
    → (text_eq key k ≡ true → is_some (kept_at k cs) ≡ true)
    → next_at (kept_at k (map (step_seq key) cs))
      ≡ next_at (kept_at k cs) + (if text_eq key k then 1 else 0)
unfolding kept_at
next_at-step key k [] there = elim (Bool-cases (text_eq key k)) [
  | inl e ↦ absurd (let h = there e in ground arith)
  | inr e ↦ rw e refl
]
next_at-step key k (c ∷ cs) there =
    let same : (step_seq key c).key ≡ c.key = ground arith in
    elim (Bool-cases (text_eq c.key k)) [
      | inl e ↦
          let named : c.key ≡ k = text_eq_sound c.key k e in
          elim (Bool-cases (text_eq key k)) [
            | inl f ↦
                let own : key ≡ k = text_eq_sound key k f in
                let met : text_eq c.key key ≡ true = rw own e in rw (same, e, f, met) refl
            | inr f ↦ elim (Bool-cases (text_eq c.key key)) [
              | inl g ↦ absurd (
                  let own : c.key ≡ key = text_eq_sound c.key key g in
                  let met : text_eq key k ≡ true = rw (← own) e in ground arith)
              | inr g ↦ rw (same, e, f, g) (omega arith)
            ]
          ]
      | inr e ↦ rw (same, e) (next_at-step key k cs (λ f. let h = there f in rw e at h))
    ]

kept_at-append :
    (k : Text) (c : MemoryConversation) (cs : List MemoryConversation)
    → kept_at k cs ≡ none
    → kept_at k (cs ++ c ∷ []) ≡ (if text_eq c.key k then some c else none)
unfolding kept_at
kept_at-append k c [] h = refl
kept_at-append k c (x ∷ cs) h = elim (Bool-cases (text_eq x.key k)) [
  | inl e ↦ cc
  | inr e ↦ rw e (kept_at-append k c cs (rw e at h))
]

kept_at-earlier :
    (k : Text) (c x : MemoryConversation) (cs : List MemoryConversation)
    → kept_at k cs ≡ some x
    → kept_at k (cs ++ c ∷ []) ≡ some x
unfolding kept_at
kept_at-earlier k c x [] h = cc
kept_at-earlier k c x (y ∷ cs) h = elim (Bool-cases (text_eq y.key k)) [
  | inl e ↦ rw e (rw e at h)
  | inr e ↦ rw e (kept_at-earlier k c x cs (rw e at h))
]

-- The conversation that a message is stored in, by its key.
conversation_at-next :
    (key k : Text) (cs : List MemoryConversation)
    → next_at (kept_at k (conversation_at key cs).1) ≡ next_at (kept_at k cs)
unfolding conversation_at
conversation_at-next key k cs = elim (Option-cases (kept_at key cs)) [
  | inr (c, e) ↦ rw (conversation_at, e) refl
  | inl e ↦
      let c : MemoryConversation = record { key = key; id = length cs + 1; next_seq = 1 } in
      elim (Option-cases (kept_at k cs)) [
        | inr (x, f) ↦ rw (conversation_at, e, kept_at-earlier k c x cs f, f) refl
        | inl f ↦ rw (conversation_at, e, kept_at-append k c cs f, f) (ground arith)
      ]
]

conversation_at-there :
    (key : Text) (cs : List MemoryConversation)
    → kept_at key (conversation_at key cs).1 ≡ some (conversation_at key cs).0
unfolding conversation_at
conversation_at-there key cs = elim (Option-cases (kept_at key cs)) [
  | inr (c, e) ↦ rw (conversation_at, e) e
  | inl e ↦
      let c : MemoryConversation = record { key = key; id = length cs + 1; next_seq = 1 } in
      rw (conversation_at, e, kept_at-append key c cs e, text_eq_refl key) refl
]

added :
    (a b c n : ℕ) (at : Bool)
    → a ≡ b + (if at then 1 else 0)
    → b ≡ suc n
    → c ≡ n + (if at then 1 else 0)
    → a ≡ suc c
added a b c n at h k e = ground (arith, h, k, e)

pub store_message-Dense :
    (m : PortMessage) (r : MemoryRegistry) → Dense r → Dense (store_message m r).1
unfolding store_message Dense
store_message-Dense m r v k =
    let key = key_of m.phone_number_id m.customer_number in
    let cs = (conversation_at key r.conversations).1 in
    let there : text_eq key k ≡ true → is_some (kept_at k cs) ≡ true = λ f.
      let own : key ≡ k = text_eq_sound key k f in
      rw (← own, conversation_at-there key r.conversations) refl in
    added (next_at (kept_at k (map (step_seq key) cs))) (next_at (kept_at k cs))
      (count_if (is_at k) (store_message m r).1.messages) (count_if (is_at k) r.messages)
      (text_eq key k) (next_at-step key k cs there)
      (conversation_at-next key k r.conversations ∙ v k)
      (count_if-append (is_at k) r.messages (store_message m r).0)

pub marked-Dense :
    (f : StoredMessage → StoredMessage)
    (same : (k : Text) (m : StoredMessage) → is_at k (f m) ≡ is_at k m) (r : MemoryRegistry)
    → Dense r
    → Dense (record r { messages = map f r.messages })
unfolding Dense
marked-Dense f same r v k = v k ∙ ap suc (sym (count_if-map (is_at k) f (same k) r.messages))
