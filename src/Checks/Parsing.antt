-- ===== src/Checks/Parsing.antt =====
-- The parser of contract/ws-events.ts and the stores of webhooks/job-store.ts on small inputs.
use comdove_fake_backend.Base.{
  is_some, lit, text_eq, is_blank, ◌≡◌, refl, ◌↔◌, Option, none, some, [], ◌∷◌, map,
}
use comdove_fake_backend.Contract.Json.{Json, string, object, end, field, get}
use comdove_fake_backend.Contract.Events.{unknown_type, group_claim, JobKind, failed}
use comdove_fake_backend.Contract.Parse.{
  accepted, client_event_type, read_event, parse_client_event,
}
use comdove_fake_backend.Contract.Parse.Accepts.{
  IsEvent, parse_client_event_iff, RejectedAs, parse_client_event_errors,
}
use comdove_fake_backend.Webhooks.JobStore.{
  NewJob, Attempt, new_job, Memory, memory_store, Tables, to_row, sqlite_store,
}
use comdove_fake_backend.Webhooks.JobStore.Agreement.{
  Added, Agrees, forget, forget_option, stores_agree,
}

abbrev claim_frame : Option Json
claim_frame = some (
    object (
      field (lit "type") (string (lit "group.claim"))
        (field (lit "group") (string (lit "team-a")) end)))

parse_client_event_iff_example :
    (parse_client_event claim_frame ≡ accepted (group_claim (lit "team-a")))
    ↔ IsEvent claim_frame (group_claim (lit "team-a"))
parse_client_event_iff_example = parse_client_event_iff claim_frame (group_claim (lit "team-a"))

claim_accepted : parse_client_event claim_frame ≡ accepted (group_claim (lit "team-a"))
unfolding parse_client_event get text_eq client_event_type read_event is_blank
claim_accepted = refl

abbrev odd_frame : Option Json
odd_frame = some (object (field (lit "type") (string (lit "group.free")) end))

parse_client_event_errors_example : RejectedAs odd_frame unknown_type
unfolding parse_client_event get text_eq client_event_type
parse_client_event_errors_example =
    parse_client_event_errors odd_frame unknown_type (lit "unknown type: group.free") refl

abbrev first_job : NewJob
first_job = record {
  conversation_id = 7;
  wamid = lit "w";
  kind = JobKind.sent;
  payload = lit "{}";
  not_before = 20;
  created_at = 5;
}

abbrev one_job_memory : Memory
one_job_memory = record { jobs = new_job 1 first_job ∷ []; attempt_rows = []; next_id = 2 }

abbrev one_job_tables : Tables
one_job_tables = record {
  webhook_jobs = to_row (new_job 1 first_job) ∷ [];
  webhook_attempts = [];
  next_id = 2;
}

abbrev first_attempt : Attempt
first_attempt = record {
  job_id = 1;
  attempt = 1;
  http_status = some 500;
  error = none;
  duration_ms = 3;
  at = 25;
}

one_job_Agrees : Agrees one_job_memory one_job_tables
one_job_Agrees = record { rows = refl; attempts = refl; ids = refl }

stores_agree_example :
    ((memory_store.insert first_job one_job_memory).0
      ≡ (sqlite_store.insert first_job one_job_tables).0)
    × Agrees
        (memory_store.insert first_job one_job_memory).1
        (sqlite_store.insert first_job one_job_tables).1
    × Agrees
        (memory_store.finish 1 failed 30 one_job_memory)
        (sqlite_store.finish 1 failed 30 one_job_tables)
    × Agrees (memory_store.clear one_job_memory) (sqlite_store.clear one_job_tables)
    × Added one_job_memory one_job_tables one_job_Agrees
        (is_some (memory_store.get first_attempt.job_id one_job_memory))
        (memory_store.add_attempt first_attempt one_job_memory)
        (sqlite_store.add_attempt first_attempt one_job_tables)
    × (sqlite_store.get 1 one_job_tables ≡ forget_option (memory_store.get 1 one_job_memory))
    × (sqlite_store.pending_jobs one_job_tables
        ≡ map forget (memory_store.pending_jobs one_job_memory))
    × (sqlite_store.attempts_of 1 one_job_tables ≡ memory_store.attempts_of 1 one_job_memory)
    × (sqlite_store.jobs_for (lit "w") one_job_tables
        ≡ map forget (memory_store.jobs_for (lit "w") one_job_memory))
stores_agree_example =
    stores_agree one_job_memory one_job_tables one_job_Agrees first_job failed 1 30 (lit "w")
      first_attempt
