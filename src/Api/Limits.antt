-- ===== src/Api/Limits.antt =====
-- The log of the control API.
use comdove_fake_backend.Base.{take, Text, ℕ, ◌≤◌, ◌≡◌, ap, Option, none, some, arith}
use comdove_fake_backend.Store.Log.{time_of, get_log}
use comdove_fake_backend.Store.Log.Order.{Descending}
use comdove_fake_backend.Store.Log.Newest.{whole_log, get_log-whole_log, get_log-Descending}
use comdove_fake_backend.Live.Delivery.{Server}
use comdove_fake_backend.Api.Types.{
  log, answer, Limit, not_finite, below_zero, at_least_zero, default_log_limit, max_log_limit,
  clamped, Conversions,
}
use comdove_fake_backend.Api.Handlers.{get_log_limited}

clamped-bounds : (l : Limit) → (1 ≤ clamped l) × (clamped l ≤ max_log_limit)
unfolding clamped
clamped-bounds not_finite = (omega arith, omega arith)
clamped-bounds below_zero = (omega arith, omega arith)
clamped-bounds (at_least_zero n) = (omega arith, omega arith)

limited-bounds :
    (w : Server) (n : ℕ)
    → 1 ≤ n
    → n ≤ max_log_limit
    → (k : ℕ) × (answer 200 (log (get_log n w.db w.dispatcher.store))
        ≡ answer 200 (log (take k (whole_log w.db w.dispatcher.store))))
      × (1 ≤ k)
      × (k ≤ max_log_limit)
      × Descending time_of (take k (whole_log w.db w.dispatcher.store))
limited-bounds w n low high =
    let same = get_log-whole_log n w.db w.dispatcher.store in
    (
      n,
      ap (λ rows. answer 200 (log rows)) same,
      low,
      high,
      rw (← same) (get_log-Descending n w.db w.dispatcher.store).1,
    )

-- Whatever limit is asked for, the log is answered with at most 1000 rows, newest first, and they
-- are the newest of all.
pub get_log_limited-bounds :
    (c : Conversions) (limit : Option Text) (w : Server)
    → (n : ℕ) × (get_log_limited c limit w
        ≡ answer 200 (log (take n (whole_log w.db w.dispatcher.store))))
      × (1 ≤ n)
      × (n ≤ max_log_limit)
      × Descending time_of (take n (whole_log w.db w.dispatcher.store))
unfolding get_log_limited
get_log_limited-bounds c none w = limited-bounds w default_log_limit (omega arith) (omega arith)
get_log_limited-bounds c (some t) w =
    let (low, high) = clamped-bounds (c.limit_of t) in
    limited-bounds w (clamped (c.limit_of t)) low high
