-- ===== src/Live/Heartbeat.antt =====
-- The heartbeat of ws/server.ts. The close of a terminated socket is an event of its own.
pub mod Answered
use comdove_fake_backend.Base.{
  ◌==◌, if◌then◌else◌, keep, ℕ, ◌+◌, Bool, true, false, not, List, [], ◌∷◌, ◌++◌, map,
}

-- A value of the `clients` map: the socket, and `alive`.
pub record Client : Type 0 where
  pub socket : ℕ
  pub alive : Bool

unfoldable pub connect : ℕ → List Client → List Client
connect id cs = cs ++ record { socket = id; alive = true } ∷ []

abbrev pub revived : ℕ → Client → Client
revived id c = if c.socket == id then record c { alive = true } else c

unfoldable pub pong : ℕ → List Client → List Client
pong id cs = map (revived id) cs

unfoldable pub disconnect : ℕ → List Client → List Client
disconnect id cs = keep (λ (c : Client). not (c.socket == id)) cs

abbrev pub pinged : Client → Client
pinged c = if c.alive then record c { alive = false } else c

-- The callback of the interval: the sockets that it terminates, those that it pings, and the map.
unfoldable pub beat : List Client → List ℕ × List ℕ × List Client
beat cs = (
  map (λ (c : Client). c.socket) (keep (λ (c : Client). not c.alive) cs),
  map (λ (c : Client). c.socket) (keep (λ (c : Client). c.alive) cs),
  map pinged cs,
)
