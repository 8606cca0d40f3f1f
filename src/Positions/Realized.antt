-- ===== src/Positions/Realized.antt =====
-- The gains that a buy of the other side locks in, in kalshi_agent/positions.py.
use kalshi_agent.Base.{ℕ, ◌+◌, ◌-◌, ◌*◌, ◌^◌, ◌<◌, ◌≤◌, ◌≡◌, false, min, arith}
use kalshi_agent.Base.Int.{pos, ◌-ℤ◌, ◌*ℤ◌, magnitude}
use kalshi_agent.Side.{Side, same_side}
use kalshi_agent.Decimal.{Decimal, of_ℕ, ◌+D◌, ◌-D◌, ◌*D◌}
use kalshi_agent.Decimal.Exact.{
  at4, one_sub4, sub4, mul4, magnitude_sub, magnitude_sub_pos, magnitude_mul, zero_add4,
}
use kalshi_agent.Result.{ok}
use kalshi_agent.Storage.{Position}
use kalshi_agent.Positions.{buy_position}

pair_gain_exact :
    (a p k : ℕ)
    → a ≤ 10000
    → p ≤ 10000
    → k < 10 ^ 18
    → of_ℕ 0 +D (of_ℕ 1 -D at4 (pos a) -D at4 (pos p)) *D of_ℕ k
      ≡ at4 ((pos 10000 -ℤ pos a -ℤ pos p) *ℤ pos k)
pair_gain_exact a p k ha hp hk =
    let z = pos 10000 -ℤ pos a -ℤ pos p in
    let first = magnitude_sub 10000 a in
    let second : magnitude z ≤ 30000 =
      omega (arith, first, magnitude_sub_pos (pos 10000 -ℤ pos a) p) in
    let product : magnitude z * k < 10 ^ 28 = grind arith in
    let small : magnitude (z *ℤ pos k) < 10 ^ 28 = omega (arith, magnitude_mul z k) in
    rw
      (
        one_sub4 (pos a) (omega (arith, first)),
        sub4 (pos 10000 -ℤ pos a) (pos p) (omega arith),
        mul4 z k small,
      )
      (zero_add4 (z *ℤ pos k) small)

-- A buy of the side that is not held pairs off contracts: each pair locks in 1 dollar less the
-- average price paid and the price, and what is bought beyond the held count opens the other side.
pub closing_buy_gain :
    (held : Position) (side : Side) (n a p : ℕ) (pos' : Position) (gain : Decimal)
    → held.avg_price_dollars ≡ at4 (pos a)
    → a ≤ 10000
    → p ≤ 10000
    → held.count < 10 ^ 18
    → 0 < held.count
    → same_side held.side side ≡ false
    → buy_position held side n (at4 (pos p)) ≡ ok (pos', gain)
    → (gain ≡ at4 ((pos 10000 -ℤ pos a -ℤ pos p) *ℤ pos (min held.count n)))
      × (pos'.count ≡ (held.count - n) + (n - held.count))
      × (held.count < n → pos'.side ≡ side)
      × (n < held.count
          → (pos'.side ≡ held.side) × (pos'.avg_price_dollars ≡ held.avg_price_dollars))
unfolding buy_position
closing_buy_gain held side n a p pos' gain ea ha hp small some_held other e =
    let k = min held.count n in
    let exact : of_ℕ 0 +D (of_ℕ 1 -D held.avg_price_dollars -D at4 (pos p)) *D of_ℕ k
        ≡ at4 ((pos 10000 -ℤ pos a -ℤ pos p) *ℤ pos k) =
      rw ea (pair_gain_exact a p k ha hp (omega arith)) in
    (ground (arith, exact), ground arith, ground arith, ground arith)
