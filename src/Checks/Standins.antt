-- ===== src/Checks/Standins.antt =====
-- The stand-in of the store, the loop of the dispatcher and the heartbeat, on small states.
use comdove_fake_backend.Live.Heartbeat.{connect}
use comdove_fake_backend.Live.Heartbeat.Answered.{
  Pulse, connects, pongs, beats, pulses, answered, terminates, beat-answered,
}
use comdove_fake_backend.Base.{
  not, lit, text_eq, suc, ◌≡◌, refl, true, false, none, some, List, [], ◌∷◌,
}
use comdove_fake_backend.Contract.Types.{outbound, api}
use comdove_fake_backend.Contract.Decimal.{decimal}
use comdove_fake_backend.Store.Messages.{PortMessage, select_messages, get_message, set_delivered}
use comdove_fake_backend.Webhooks.JobStore.{sqlite_store}
use comdove_fake_backend.Webhooks.Dispatcher.Slots.{empty, resume, settle}
use comdove_fake_backend.Webhooks.Dispatcher.Loop.{goes_on, settle-ends}
use comdove_fake_backend.Checks.Storing.{used_db}
use comdove_fake_backend.Checks.Dispatching.{two_attempts, two_pending}
use comdove_fake_backend.Dev.MemoryRegistry.{
  MemoryRegistry, no_registry, key_of, store_message, get_message as get_kept,
  set_delivered as set_kept, known_business, conversation_at, kept_at, seed, seed_business,
  BusinessPart,
}
use comdove_fake_backend.Dev.MemoryRegistry.Agreement.{set_delivered-agrees}
use comdove_fake_backend.Dev.MemoryRegistry.Dense.{count_if, is_at}
use comdove_fake_backend.Dev.MemoryRegistry.Calls.{
  Call, seeds, stores, delivers, call, call_all, store_message-seq,
}
use comdove_fake_backend.Dev.Groups.{dev_groups, exists}

settle-ends_example :
    goes_on two_attempts
      (settle two_attempts 7 (resume sqlite_store two_attempts (empty two_pending)))
    ≡ false
settle-ends_example =
    settle-ends two_attempts 7 (resume sqlite_store two_attempts (empty two_pending))

abbrev hello_again : PortMessage
hello_again = record {
  wamid = lit "wamid.1";
  direction = outbound;
  source = api;
  phone_number_id = lit "MOCK-PN-1";
  customer_number = lit "60111222";
  body = lit "hello";
  at = 40;
}

abbrev the_shop : BusinessPart
the_shop = record {
  phone_number_id = none;
  display_number = some (lit "15550001");
  label = none;
  token = none;
  waba_id = none;
}

abbrev one_call : List Call
one_call = seeds (the_shop ∷ []) [] ∷ stores hello_again ∷ delivers (lit "wamid.1" ∷ []) 50 ∷ []

store_message-seq_example :
    (store_message hello_again (call_all one_call no_registry)).0.seq
    ≡ suc (
        count_if
          (is_at (key_of (lit "MOCK-PN-1") (lit "60111222")))
          (call_all one_call no_registry).messages)
store_message-seq_example = store_message-seq one_call hello_again

abbrev one_message : MemoryRegistry
one_message = call_all (seeds (the_shop ∷ []) [] ∷ stores hello_again ∷ []) no_registry

set_delivered-agrees_example :
    get_kept (lit "wamid.1") (set_kept (lit "wamid.1" ∷ []) 90 one_message)
    ≡ get_message (lit "wamid.1") (set_delivered (lit "wamid.1" ∷ []) 90 used_db)
unfolding get_kept get_message call_all call seed seed_business store_message known_business
    conversation_at kept_at select_messages decimal text_eq
set_delivered-agrees_example =
    set_delivered-agrees (lit "wamid.1") (lit "wamid.1" ∷ []) 90 one_message used_db refl

beta_exists : exists (lit "beta") dev_groups ≡ true
unfolding exists text_eq
beta_exists = refl

-- Socket 5 answers the first beat and not the second; socket 6 never does.
abbrev two_beats : List Pulse
two_beats = connects 6 ∷ beats ∷ pongs 5 ∷ beats ∷ []

beat-answered_example :
    terminates 5 (pulses two_beats (connect 5 [])) ≡ not (answered 5 true two_beats)
beat-answered_example = beat-answered 5 [] two_beats refl (refl, (tt, (tt, (tt, tt))))
