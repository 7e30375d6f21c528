-- ===== src/Live/Session.antt =====
-- ws/session.ts: the role of each socket and the claim of a group. `W` is what the rest of the
-- program keeps: the store, the frames and the state of each socket, the feeds. The dependencies
-- of a session act on it and read the locks; they change no lock and no role, as in live.ts.
pub mod Exclusive
pub mod Claims
pub mod Runs
pub mod Unleaked
pub mod Leaks
use comdove_fake_backend.Base.{
  if◌then◌else◌, Text, lit, ℕ, zero, suc, ◌+◌, Bool, true, false, Option, none, some, List, [], ◌∷◌,
  ◌++◌,
}
use comdove_fake_backend.Contract.Events.{
  WsErrorCode, not_claimed, already_claimed, unknown_group, ClientEvent, group_claim,
  admin_subscribe, Snapshot, ServerEvent, group_claimed, group_locked, error,
}
use comdove_fake_backend.Live.Lock.{LockTable, claim, release}

pub data Role : Type 0 where
  unclaimed : Role  -- kind: 'none'
  group : (id : Text) → Role
  admin : Role

-- The variables `role` and `closed` of `createSession`.
pub record Session : Type 0 where
  pub role : Role
  pub closed : Bool

-- `SessionDeps`, and the socket: `send` writes a frame where the socket is open.
pub record SessionDeps (W : Type 0) : Type 0 where
  pub exists : Text → W → Bool
  pub snapshot : Text → LockTable → W → Snapshot
  pub on_group_event : (session : ℕ) (group : Text) → ClientEvent → (now : ℕ) → LockTable → W → W
  pub on_claim : (session : ℕ) (group : Text) (now : ℕ) → LockTable → W → W
  pub on_release : (session : ℕ) → Text → LockTable → W → W
  pub on_admin_subscribe : (session : ℕ) → LockTable → W → W
  pub on_admin_close : (session : ℕ) → LockTable → W → W
  pub send : (session : ℕ) → ServerEvent → W → W
  pub close_socket : (session : ℕ) → W → W

pub record Live (W : Type 0) : Type 0 where
  pub lock : LockTable
  pub sessions : List Session
  pub world : W

unfoldable pub session_at : ℕ → List Session → Option Session
session_at i [] = none
session_at zero (s ∷ ss) = some s
session_at (suc i) (s ∷ ss) = session_at i ss

unfoldable pub set_session : ℕ → Session → List Session → List Session
set_session i s [] = []
set_session zero s (x ∷ xs) = s ∷ xs
set_session (suc i) s (x ∷ xs) = x ∷ set_session i s xs

abbrev pub opened : Session
opened = record { role = unclaimed; closed = false }

-- What happens to the sockets.
pub data SocketEvent (W : Type 0) : Type 0 where
  connects : SocketEvent W
  receives : (session : ℕ) → ClientEvent → (now : ℕ) → SocketEvent W
  closes : (session : ℕ) → SocketEvent W
  disconnects : (session : ℕ) → SocketEvent W
  elsewhere : W → SocketEvent W  -- the rest of the program has changed its part

module _ {W : Type 0} (deps : SessionDeps W) where
  unfoldable pub fail : ℕ → WsErrorCode → Text → Live W → Live W
  fail i code message s = record s { world = deps.send i (ServerEvent.error code message) s.world }

  -- `claim`, where the group exists: the lock decides.
  unfoldable pub claim_lock : ℕ → Session → Text → (now : ℕ) → Live W → Live W
  unfolding claim
  claim_lock i k g now s =
      let ((taken, since), lock) = claim g i now s.lock in
      if taken
      then record {
        lock = lock;
        sessions = set_session i (record k { role = group g }) s.sessions;
        world =
            deps.on_claim i g now lock
              (deps.send i (group_claimed (deps.snapshot g lock s.world)) s.world);
      }
      else record s { world = deps.send i (group_locked g since) s.world }

  unfoldable pub claim_as : Role → ℕ → Session → Text → (now : ℕ) → Live W → Live W
  unfolding fail claim_lock
  claim_as unclaimed i k g now s =
      if deps.exists g s.world
      then claim_lock i k g now s
      else fail i unknown_group (lit "unknown group: " ++ g) s
  claim_as _ i k g now s = fail i already_claimed (lit "this socket already has a role") s

  unfoldable pub subscribe_as : Role → ℕ → Session → Live W → Live W
  unfolding fail
  subscribe_as unclaimed i k s = record s {
    sessions = set_session i (record k { role = admin }) s.sessions;
    world = deps.on_admin_subscribe i s.lock s.world;
  }
  subscribe_as _ i k s = fail i already_claimed (lit "this socket already has a role") s

  unfoldable pub pass_on : Role → ℕ → ClientEvent → (now : ℕ) → Live W → Live W
  unfolding fail
  pass_on (group g) i ev now s = record s { world = deps.on_group_event i g ev now s.lock s.world }
  pass_on _ i ev now s = fail i not_claimed (lit "claim a group first") s

  unfoldable pub handle : ℕ → Session → ClientEvent → (now : ℕ) → Live W → Live W
  unfolding claim_as subscribe_as pass_on
  handle i k (group_claim g) now s = claim_as k.role i k g now s
  handle i k admin_subscribe now s = subscribe_as k.role i k s
  handle i k ev now s = pass_on k.role i ev now s

  -- `close`, where the session is not closed yet.
  unfoldable pub close_role : ℕ → Role → Live W → Live W
  unfolding release
  close_role i unclaimed s = record s {
    sessions = set_session i (record { role = unclaimed; closed = true }) s.sessions;
  }
  close_role i (group g) s =
      let lock = (release g i s.lock).1 in
      record {
        lock = lock;
        sessions = set_session i (record { role = group g; closed = true }) s.sessions;
        world = deps.on_release i g lock s.world;
      }
  close_role i admin s = record s {
    sessions = set_session i (record { role = admin; closed = true }) s.sessions;
    world = deps.on_admin_close i s.lock s.world;
  }

  unfoldable pub close : ℕ → Session → Live W → Live W
  unfolding close_role
  close i k s = if k.closed then s else close_role i k.role s

  unfoldable pub disconnect : ℕ → Session → Live W → Live W
  unfolding close
  disconnect i k s = let s' = close i k s in record s' { world = deps.close_socket i s'.world }

  -- An event for a session that there is.
  unfoldable pub with_session : ℕ → (Session → Live W → Live W) → Live W → Live W
  with_session i f s = elim (session_at i s.sessions) [ none ↦ s | some k ↦ f k s ]

  unfoldable pub step : SocketEvent W → Live W → Live W
  unfolding handle close disconnect with_session
  step connects s = record s { sessions = s.sessions ++ opened ∷ [] }
  step (receives i ev now) s = with_session i (λ k. handle i k ev now) s
  step (closes i) s = with_session i (close i) s
  step (disconnects i) s = with_session i (disconnect i) s
  step (elsewhere w) s = record s { world = w }

  unfoldable pub run : List (SocketEvent W) → Live W → Live W
  unfolding step
  run [] s = s
  run (e ∷ es) s = run es (step e s)
