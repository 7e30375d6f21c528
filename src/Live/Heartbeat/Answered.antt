-- ===== src/Live/Heartbeat/Answered.antt =====
-- Which sockets the heartbeat of ws/server.ts terminates, over its runs.
use comdove_fake_backend.Base.{
  ◌==◌, if◌then◌else◌, Bool-cases, keep, any, All, All-append, All-keep, ℕ, ◌≡◌, refl, subst, inl,
  inr, Bool, true, false, not, List, [], ◌∷◌, ◌++◌, map, arith,
}
use comdove_fake_backend.Live.Heartbeat.{Client, connect, revived, pong, disconnect, pinged, beat}

pub data Pulse : Type 0 where
  connects pongs closes : ℕ → Pulse
  beats : Pulse

unfoldable pub pulse : Pulse → List Client → List Client
unfolding connect pong disconnect beat
pulse (connects id) cs = connect id cs
pulse (pongs id) cs = pong id cs
pulse (closes id) cs = disconnect id cs
pulse beats cs = (beat cs).2

unfoldable pub pulses : List Pulse → List Client → List Client
unfolding pulse
pulses [] cs = cs
pulses (e ∷ es) cs = pulses es (pulse e cs)

-- The socket stays the one that it is: it is neither opened again nor closed.
abbrev pub Stays : ℕ → Pulse → Type 0
Stays id (connects j) = (j == id) ≡ false
Stays id (pongs j) = Unit
Stays id (closes j) = (j == id) ≡ false
Stays id beats = Unit

-- Whether a pong has come since the last beat.
abbrev pub answers : ℕ → Bool → Pulse → Bool
answers id flag (connects j) = flag
answers id flag (pongs j) = if j == id then true else flag
answers id flag (closes j) = flag
answers id flag beats = false

abbrev pub answered : ℕ → Bool → List Pulse → Bool
answered id flag [] = flag
answered id flag (e ∷ es) = answered id (answers id flag e) es

abbrev pub is_client : ℕ → Client → Bool
is_client id c = c.socket == id

abbrev Flagged : ℕ → Bool → Client → Type 0
Flagged id flag c = is_client id c ≡ true → c.alive ≡ flag

-- The socket is in the map, with this flag.
record Open (id : ℕ) (flag : Bool) (cs : List Client) : Type 0 where
  here : any (is_client id) cs ≡ true
  flagged : All (Flagged id flag) cs

any-map :
    (id : ℕ) (f : Client → Client) (same : (c : Client) → (f c).socket ≡ c.socket)
    (cs : List Client)
    → any (is_client id) (map f cs) ≡ any (is_client id) cs
any-map id f same [] = refl
any-map id f same (c ∷ cs) = rw (same c, any-map id f same cs) refl

map-Flagged :
    (id : ℕ) (flag then_flag : Bool) (f : Client → Client)
    (moves : (c : Client) → Flagged id flag c → Flagged id then_flag (f c)) (cs : List Client)
    → All (Flagged id flag) cs
    → All (Flagged id then_flag) (map f cs)
map-Flagged id flag then_flag f moves [] h = tt
map-Flagged id flag then_flag f moves (c ∷ cs) h =
    (moves c h.0, map-Flagged id flag then_flag f moves cs h.1)

any-append :
    (id j : ℕ) (cs : List Client)
    → any (is_client id) cs ≡ true
    → any (is_client id) (cs ++ record { socket = j; alive = true } ∷ []) ≡ true
any-append id j [] h = absurd (ground arith)
any-append id j (c ∷ cs) h = elim (Bool-cases (is_client id c)) [
  | inl e ↦ rw e refl
  | inr e ↦ rw e (any-append id j cs (rw e at h))
]

any-others :
    (id j : ℕ) (cs : List Client)
    → (j == id) ≡ false
    → any (is_client id) (keep (λ (c : Client). not (c.socket == j)) cs) ≡ any (is_client id) cs
any-others id j [] other = refl
any-others id j (c ∷ cs) other = elim (Bool-cases (c.socket == j)) [
  | inr e ↦ rw (e, any-others id j cs other) refl
  | inl e ↦
      let off : is_client id c ≡ false = ground arith in rw (e, off, any-others id j cs other) refl
]

pulse-Open :
    (id : ℕ) (flag : Bool) (e : Pulse) (cs : List Client)
    → Stays id e
    → Open id flag cs
    → Open id (answers id flag e) (pulse e cs)
unfolding pulse connect pong disconnect beat
pulse-Open id flag (connects j) cs other v = record {
  here = any-append id j cs v.here;
  flagged =
      All-append (Flagged id flag) cs (record { socket = j; alive = true } ∷ []) v.flagged
        ((λ own. absurd (ground arith)), tt);
}
pulse-Open id flag (pongs j) cs stays v = record {
  here = rw (any-map id (revived j) (λ c. ground arith) cs) v.here;
  flagged =
      map-Flagged id flag (if j == id then true else flag) (revived j)
        (λ c h own. elim (Bool-cases (c.socket == j)) [
          | inl e ↦ let same : (j == id) ≡ true = ground arith in rw (e, same) refl
          | inr e ↦
              let own' : is_client id c ≡ true = rw e at own in
              let other : (j == id) ≡ false = ground arith in rw (e, other) (h own')
        ])
        cs v.flagged;
}
pulse-Open id flag (closes j) cs other v = record {
  here = rw (any-others id j cs other) v.here;
  flagged = All-keep (Flagged id flag) (λ (c : Client). not (c.socket == j)) cs v.flagged;
}
pulse-Open id flag beats cs stays v = record {
  here = rw (any-map id pinged (λ c. ground arith) cs) v.here;
  flagged = map-Flagged id flag false pinged (λ c h own. ground arith) cs v.flagged;
}

pulses-Open :
    (id : ℕ) (flag : Bool) (es : List Pulse) (cs : List Client)
    → All (Stays id) es
    → Open id flag cs
    → Open id (answered id flag es) (pulses es cs)
unfolding pulses
pulses-Open id flag [] cs stays v = v
pulses-Open id flag (e ∷ es) cs stays v =
    pulses-Open id (answers id flag e) es (pulse e cs) stays.1 (pulse-Open id flag e cs stays.0 v)

abbrev pub terminates : ℕ → List Client → Bool
unfolding beat
terminates id cs = any (λ n. n == id) (beat cs).0

dead-all :
    (id : ℕ) (cs : List Client)
    → any (is_client id) cs ≡ true
    → All (Flagged id false) cs
    → terminates id cs ≡ true
unfolding beat terminates
dead-all id [] h f = absurd (ground arith)
dead-all id (c ∷ cs) h f = elim (Bool-cases (is_client id c)) [
  | inl e ↦ let dead : c.alive ≡ false = f.0 e in rw (dead, e) refl
  | inr e ↦
      let rest = dead-all id cs (rw e at h) f.1 in
      elim (Bool-cases c.alive) [ inl a ↦ rw a rest | inr a ↦ rw (a, e) rest ]
]

alive-none : (id : ℕ) (cs : List Client) → All (Flagged id true) cs → terminates id cs ≡ false
unfolding beat terminates
alive-none id [] f = refl
alive-none id (c ∷ cs) f = elim (Bool-cases c.alive) [
  | inl a ↦ rw a (alive-none id cs f.1)
  | inr a ↦ elim (Bool-cases (is_client id c)) [
    | inl e ↦ absurd (let up = f.0 e in ground arith)
    | inr e ↦ rw (a, e) (alive-none id cs f.1)
  ]
]

connected :
    (id : ℕ) (cs : List Client) → any (is_client id) cs ≡ false → Open id true (connect id cs)
unfolding connect
connected id [] h = record { here = ground arith; flagged = ((λ own. refl), tt) }
connected id (c ∷ cs) h =
    let off : is_client id c ≡ false = ground arith in
    let rest = connected id cs (rw off at h) in
    record { here = rw off rest.here; flagged = ((λ own. absurd (ground arith)), rest.flagged) }

-- A socket that has connected, and that neither closes nor opens again, is terminated by the next
-- beat exactly if no pong of it has come since the last one, whatever other sockets do and however
-- many beats there are; the first beat after it has connected spares it.
pub beat-answered :
    (id : ℕ) (cs : List Client) (es : List Pulse)
    → any (is_client id) cs ≡ false
    → All (Stays id) es
    → terminates id (pulses es (connect id cs)) ≡ not (answered id true es)
unfolding connect
beat-answered id cs es fresh stays =
    let open_now = pulses-Open id true es (connect id cs) stays (connected id cs fresh) in
    elim (Bool-cases (answered id true es)) [
      | inl e ↦ rw e (
          alive-none id (pulses es (connect id cs))
            (subst (λ b. All (Flagged id b) (pulses es (connect id cs))) e open_now.flagged))
      | inr e ↦ rw e (
          dead-all id (pulses es (connect id cs)) open_now.here
            (subst (λ b. All (Flagged id b) (pulses es (connect id cs))) e open_now.flagged))
    ]
