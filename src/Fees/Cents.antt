-- ===== src/Fees/Cents.antt =====
-- The taker fee at the default rate, for prices of four decimals.
use kalshi_agent.Base.{ℕ, zero, suc, ◌+◌, ◌-◌, ◌*◌, ◌/◌, ◌^◌, ◌≤◌, ◌≡◌, refl, arith, ap, sym, ◌∙◌}
use mathlib.Core.Path.{subst}
use native.Mathlib.Nat.{mul_comm}
use native.Mathlib.Decide.{dec_le}
use kalshi_agent.Base.Int.{pos, ◌-ℤ◌}
use kalshi_agent.Decimal.{Decimal, dec, of_ℕ, of_ℤ, ◌-D◌, ◌*D◌, quotient, ceil}
use kalshi_agent.Decimal.Exact.{at4, unit_sub4, mul_dec}
use kalshi_agent.Fees.{default_rate, taker_fee_per_contract_dollars}

-- The smallest number of cents that is at least 0.07 * P * (1 - P) * 100, for P = p / 10000.
abbrev pub taker_cents : ℕ → ℕ
taker_cents p = (7 * p * (10000 - p) * 100 + (10 ^ 10 - 1)) / 10 ^ 10

abbrev pub cents_dollars : ℕ → Decimal
cents_dollars zero = of_ℕ 0
cents_dollars (suc c) = dec (suc c) 2

pub unit_sub4_pos : (p : ℕ) → p ≤ 10000 → dec 10 1 -D at4 (pos p) ≡ at4 (pos (10000 - p))
unit_sub4_pos p h =
    let e : pos 10000 -ℤ pos p ≡ pos (10000 - p) = unfold ◌-ℤ◌ in ground arith in
    unit_sub4 (pos p) (rw e (omega arith)) ∙ ap at4 e

-- The product of two numbers with the sum 2 * 5000, by their distance from the middle.
product_below : (p d : ℕ) → p + d ≡ 5000 → p * (5000 + d) ≤ 25_000_000
product_below p d e = omega (arith, ap (λ (t : ℕ). t * d) e)

pub product_bound : (p : ℕ) → p ≤ 10000 → p * (10000 - p) ≤ 25_000_000
product_bound p h = elim (dec_le p 5000) [
  | yes low ↦
      let e : 10000 - p ≡ 5000 + (5000 - p) = omega arith in
      rw e (product_below p (5000 - p) (omega arith))
  | no high ↦
      let e : p ≡ 5000 + (p - 5000) = omega arith in
      let b = product_below (10000 - p) (p - 5000) (omega arith) in
      rw mul_comm (subst (λ t. (10000 - p) * t ≤ 25_000_000) (sym e) b)
]

pub raw_cents_exact :
    (p : ℕ)
    → p ≤ 10000
    → default_rate *D at4 (pos p) *D (dec 10 1 -D at4 (pos p)) *D of_ℕ 100
      ≡ dec (7 * p * (10000 - p) * 100) 10
raw_cents_exact p h = rw (
  unit_sub4_pos p h,
  mul_dec 7 p 2 4 (omega arith),
  mul_dec (7 * p) (10000 - p) 6 4 (omega (arith, product_bound p h)),
  mul_dec (7 * p * (10000 - p)) 100 10 0 (omega (arith, product_bound p h)),
)

quotient_cents : (c : ℕ) → c ≤ 2 → quotient (of_ℕ c) (of_ℕ 100) ≡ cents_dollars c
unfolding quotient
quotient_cents zero h = refl
quotient_cents (suc zero) h = refl
quotient_cents (suc (suc zero)) h = refl
quotient_cents (suc (suc (suc c))) h = absurd (omega arith)

pub taker_cents_bound : (p : ℕ) → p ≤ 10000 → taker_cents p ≤ 2
taker_cents_bound p h = omega (arith, product_bound p h)

pub taker_fee-eq-cents :
    (p : ℕ)
    → p ≤ 10000
    → taker_fee_per_contract_dollars (at4 (pos p)) default_rate ≡ cents_dollars (taker_cents p)
unfolding taker_fee_per_contract_dollars
taker_fee-eq-cents p h =
    ap (λ r. quotient (of_ℤ (ceil r)) (of_ℕ 100)) (raw_cents_exact p h)
    ∙ (unfold ceil in quotient_cents (taker_cents p) (taker_cents_bound p h))
