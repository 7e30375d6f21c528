-- ===== src/Dev/MemoryRegistry/Calls.antt =====
-- dev/memory-registry.ts over a whole test: any sequence of its calls.
use comdove_fake_backend.Base.{
  Option-cases, length, Text, ℕ, suc, ◌+◌, ◌≡◌, refl, ◌∙◌, inl, inr, List, [], ◌∷◌, ◌++◌, arith,
}
use comdove_fake_backend.Contract.Types.{RejectedRequest}
use comdove_fake_backend.Store.Messages.{PortMessage}
use comdove_fake_backend.Dev.MemoryRegistry.{
  MemoryConversation, MemoryRegistry, no_registry, BusinessPart, CustomerPart, seeded_business,
  seed_business, seed, key_of, kept_at, conversation_at, store_message, delivered_now, read_now,
  set_delivered, set_read, log_rejected,
}
use comdove_fake_backend.Dev.MemoryRegistry.Dense.{
  marked-Dense, count_if, is_at, next_at, Dense, store_message-Dense,
}

pub data Call : Type 0 where
  seeds : List BusinessPart → List CustomerPart → Call
  stores : PortMessage → Call
  delivers : List Text → ℕ → Call
  reads : List Text → ℕ → Call
  rejects : RejectedRequest → Call

unfoldable pub call : Call → MemoryRegistry → MemoryRegistry
unfolding seed store_message set_delivered set_read log_rejected
call (seeds bs cs) r = seed bs cs r
call (stores m) r = (store_message m r).1
call (delivers ws at) r = set_delivered ws at r
call (reads ws at) r = set_read ws at r
call (rejects q) r = log_rejected q r

unfoldable pub call_all : List Call → MemoryRegistry → MemoryRegistry
unfolding call
call_all [] r = r
call_all (c ∷ cs) r = call_all cs (call c r)

seed_business-Dense :
    (bs : List BusinessPart) (r : MemoryRegistry) → Dense r → Dense (seed_business bs r)
unfolding seed_business Dense
seed_business-Dense [] r v = v
seed_business-Dense (b ∷ bs) r v =
    seed_business-Dense bs
      (record r { business = r.business ++ seeded_business b (length r.business + 1) ∷ [] }) v

call-Dense : (c : Call) (r : MemoryRegistry) → Dense r → Dense (call c r)
unfolding call seed set_delivered set_read log_rejected Dense
call-Dense (seeds bs cs) r v = seed_business-Dense bs r v
call-Dense (stores m) r v = store_message-Dense m r v
call-Dense (delivers ws at) r v = marked-Dense (delivered_now ws at) (λ k m. ground arith) r v
call-Dense (reads ws at) r v = marked-Dense (read_now ws at) (λ k m. ground arith) r v
call-Dense (rejects q) r v = v

call_all-Dense : (cs : List Call) (r : MemoryRegistry) → Dense r → Dense (call_all cs r)
unfolding call_all
call_all-Dense [] r v = v
call_all-Dense (c ∷ cs) r v = call_all-Dense cs (call c r) (call-Dense c r v)

conversation_at-seq :
    (key : Text) (cs : List MemoryConversation)
    → (conversation_at key cs).0.next_seq ≡ next_at (kept_at key cs)
unfolding conversation_at
conversation_at-seq key cs = elim (Option-cases (kept_at key cs)) [
  | inr (c, e) ↦ rw (conversation_at, e) refl
  | inl e ↦ rw (conversation_at, e) refl
]

-- Whatever a test has done with the stand-in, the message that it stores next has as its number one
-- more than the count of the messages with the same key: the numbers of a conversation have no gap.
pub store_message-seq :
    (cs : List Call) (m : PortMessage)
    → let r = call_all cs no_registry in
      (store_message m r).0.seq
      ≡ suc (count_if (is_at (key_of m.phone_number_id m.customer_number)) r.messages)
unfolding store_message call_all Dense
store_message-seq cs m =
    let r = call_all cs no_registry in
    let key = key_of m.phone_number_id m.customer_number in
    conversation_at-seq key r.conversations ∙ call_all-Dense cs no_registry (λ k. refl) key
