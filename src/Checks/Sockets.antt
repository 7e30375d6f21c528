-- ===== src/Checks/Sockets.antt =====
-- The sessions of ws/session.ts with dependencies that only keep the frames sent.
use comdove_fake_backend.Base.{
  Text, lit, text_eq, ℕ, ◌≡◌, refl, true, false, some, none, List, [], ◌∷◌,
}
use comdove_fake_backend.Contract.Events.{
  group_claim, Snapshot, ServerEvent, group_claimed, group_locked,
}
use comdove_fake_backend.Live.Lock.{holder, claim}
use comdove_fake_backend.Live.Session.{
  group, Session, SessionDeps, Live, session_at, set_session, SocketEvent, connects, receives,
  closes, step, run,
}
use comdove_fake_backend.Live.Session.Leaks.{is_orderly, no_lock_leaks}
use comdove_fake_backend.Live.Session.Runs.{
  Exclusive, Agrees, step-Agrees, boot, boot-Agrees, one_session_per_group, close-frees,
}

abbrev no_tiles : Text → Snapshot
no_tiles g = record { id = g; name = g; business_numbers = []; tiles = [] }

abbrev frames_only : SessionDeps (List (ℕ × ServerEvent))
frames_only = record {
  exists = λ g w. true;
  snapshot = λ g locks w. no_tiles g;
  on_group_event = λ i g ev now locks w. w;
  on_claim = λ i g now locks w. w;
  on_release = λ i g locks w. w;
  on_admin_subscribe = λ i locks w. w;
  on_admin_close = λ i locks w. w;
  send = λ i ev w. (i, ev) ∷ w;
  close_socket = λ i w. w;
}

-- The second socket asks for the group of the first, and again once that has closed.
abbrev two_sockets : List (SocketEvent (List (ℕ × ServerEvent)))
two_sockets =
    connects
    ∷ connects
    ∷ receives 0 (group_claim (lit "a")) 10
    ∷ receives 1 (group_claim (lit "a")) 20
    ∷ closes 0
    ∷ receives 1 (group_claim (lit "a")) 30
    ∷ []

abbrev in_group : Session
in_group = record { role = group (lit "a"); closed = false }

one_session_per_group_example :
    Exclusive frames_only (run frames_only two_sockets (boot frames_only []))
one_session_per_group_example = one_session_per_group frames_only [] two_sockets

no_lock_leaks_example :
    (k : Session) × (session_at 1 (run frames_only two_sockets (boot frames_only [])).sessions
      ≡ some k)
    × (k.role ≡ group (lit "a"))
    × (k.closed ≡ false)
unfolding run session_at set_session text_eq holder is_orderly
no_lock_leaks_example =
    no_lock_leaks frames_only [] two_sockets (lit "a") (record { owner = 1; since = 30 }) refl refl

frames_sent :
    (run frames_only two_sockets (boot frames_only [])).world
    ≡ (1, group_claimed (no_tiles (lit "a")))
      ∷ (1, group_locked (lit "a") 10)
      ∷ (0, group_claimed (no_tiles (lit "a")))
      ∷ []
unfolding run session_at set_session text_eq holder
frames_sent = refl

abbrev after_claim : Live (List (ℕ × ServerEvent))
unfolding run
after_claim =
    run frames_only (connects ∷ receives 0 (group_claim (lit "a")) 10 ∷ []) (boot frames_only [])

after_claim-Agrees : Agrees frames_only after_claim
unfolding run
after_claim-Agrees =
    step-Agrees frames_only (receives 0 (group_claim (lit "a")) 10) _
      (step-Agrees frames_only connects (boot frames_only []) (boot-Agrees frames_only []))

close-frees_example :
    ((claim (lit "a") 1 30 (step frames_only (closes 0) after_claim).lock).0 ≡ (true, 30))
    × (holder (lit "a") (step frames_only (closes 0) after_claim).lock ≡ none)
unfolding run session_at set_session text_eq holder
close-frees_example =
    close-frees frames_only 0 in_group (lit "a") 30 after_claim after_claim-Agrees refl refl refl 1
