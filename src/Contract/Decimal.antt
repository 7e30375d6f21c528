-- ===== src/Contract/Decimal.antt =====
-- `String(n)` for a natural number, as template literals and `padStart` use it.
use comdove_fake_backend.Base.{
  ℕ, zero, suc, ◌+◌, ◌-◌, ◌/◌, ◌%◌, Text, length, [], ◌∷◌, ◌++◌, ltb, if◌then◌else◌,
}

digit : ℕ → ℕ
digit d = d % 10 + b'0'

-- The digits of `n` in front of `acc`. The number of digits is below `n + 1`, the fuel.
decimal_from : ℕ → ℕ → Text → Text
unfolding digit
decimal_from zero n acc = acc
decimal_from (suc fuel) n acc =
    let more = decimal_from fuel (n / 10) (digit n ∷ acc) in
    if ltb n 10 then digit n ∷ acc else more

unfoldable pub decimal : ℕ → Text
unfolding decimal_from
decimal n = decimal_from (suc n) n []

zeros : ℕ → Text
zeros zero = []
zeros (suc n) = b'0' ∷ zeros n

-- `s.padStart(w, '0')`
unfoldable pub pad_start : ℕ → Text → Text
unfolding zeros
pad_start w s = zeros (w - length s) ++ s
