-- ===== src/Checks/Messaging.antt =====
-- core/lifecycle.ts on a store with one business and one customer, and an idle dispatcher.
use comdove_fake_backend.Contract.Json.{Json}
use comdove_fake_backend.Contract.Types.{StoredMessage, tile}
use comdove_fake_backend.Base.{List, Text, lit, text_eq, digits_only, ◌≡◌, refl, [], arith}
use comdove_fake_backend.Store.Tables.{empty_db}
use comdove_fake_backend.Store.Registry.{get_business, get_customer}
use comdove_fake_backend.Webhooks.JobStore.{Tables}
use comdove_fake_backend.Webhooks.Dispatcher.Types.{Options, default_retry_delays_ms}
use comdove_fake_backend.Webhooks.Dispatcher.Slots.{empty}
use comdove_fake_backend.Lifecycle.{BusEvent, World, LifecycleDeps, Outcome, done, inbound}
use comdove_fake_backend.Dev.MemoryBus.{record_event}
use comdove_fake_backend.Lifecycle.Inbound.{IsReceived, inbound-IsReceived}
use comdove_fake_backend.Checks.Storing.{shop, ana, small_db, small_db-Numbered, used_db, hello_row}
use comdove_fake_backend.Store.Messages.{joined}

abbrev pub no_jobs : Tables
no_jobs = record { webhook_jobs = []; webhook_attempts = []; next_id = 1 }

abbrev pub quiet : World (List BusEvent)
unfolding empty
quiet = record { db = small_db; dispatcher = empty no_jobs; bus = [] }

abbrev pub four_attempts : Options
four_attempts = record {
  secret = lit "s";
  retry_delays = default_retry_delays_ms;
  max_parallel = 20;
}

abbrev pub one_text : Json → Text
one_text v = lit "{}"

abbrev pub recorded : LifecycleDeps (List BusEvent)
unfolding record_event
recorded = record {
  on_event = record_event;
  stringify = one_text;
  options = four_attempts;
  status_delay = 500;
}

inbound-IsReceived_example :
    (m : StoredMessage) × (w' : World (List BusEvent)) × ◌≡◌
      {A = World (List BusEvent) × Outcome StoredMessage}
      (inbound recorded
        (lit "+60111222")
        (lit "MOCK-PN-1")
        (lit "hi")
        tile
        (lit "wamid.2")
        70
        quiet)
      (w', done m)
    × IsReceived recorded shop ana (lit "hi") tile (lit "wamid.2") 70 quiet w' m
unfolding get_customer get_business text_eq digits_only empty empty_db
inbound-IsReceived_example =
    inbound-IsReceived recorded (lit "+60111222") (lit "MOCK-PN-1") (lit "hi") tile (lit "wamid.2")
      70 quiet ana shop small_db-Numbered refl refl refl refl (omega arith) refl

-- The tables with one queued message, whose business number has been deleted.
abbrev deserted : World (List BusEvent)
unfolding empty
deserted = record {
  db = record used_db { business_numbers = [] };
  dispatcher = empty no_jobs;
  bus = [];
}

abbrev pub queued_message : StoredMessage
queued_message = joined hello_row (record {
  id = 1;
  phone_number_id = lit "MOCK-PN-1";
  customer_number = lit "60111222";
  next_seq = 2;
})
