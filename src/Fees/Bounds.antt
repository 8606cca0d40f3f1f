-- ===== src/Fees/Bounds.antt =====
-- What the fees of kalshi_agent/safety/fees.py amount to, at the default rate.
use kalshi_agent.Base.{
  ℕ, zero, suc, ◌+◌, ◌-◌, ◌*◌, ◌^◌, ◌≤◌, ◌<◌, ◌≡◌, refl, true, false, ap, sym, ◌∙◌, arith,
}
use kalshi_agent.Base.Int.{pos}
use kalshi_agent.Decimal.{dec, of_ℕ, ◌*D◌}
use kalshi_agent.Decimal.Exact.{at4, mul_dec}
use kalshi_agent.Fees.{
  default_rate, taker_fee_per_contract_dollars, maker_fee_per_contract_dollars, total_fee_dollars,
}
use kalshi_agent.Fees.Cents.{taker_cents, taker_cents_bound, cents_dollars, taker_fee-eq-cents}

-- At the rate 0.07 and a price of p ten-thousandths of a dollar, the taker fee of a contract is a
-- whole number of cents: the least that covers 0.07 * P * (1 - P), and at most 2.
pub taker_fee_least_cents :
    (p : ℕ)
    → p ≤ 10000
    → (c : ℕ) × (taker_fee_per_contract_dollars (at4 (pos p)) default_rate ≡ cents_dollars c)
      × (7 * p * (10000 - p) ≤ c * 10 ^ 8)
      × (c * 10 ^ 8 < 7 * p * (10000 - p) + 10 ^ 8)
      × (c ≤ 2)
taker_fee_least_cents p h =
    (taker_cents p, taker_fee-eq-cents p h, omega arith, omega arith, taker_cents_bound p h)

taker_cents_symmetric : (p : ℕ) → p ≤ 10000 → taker_cents p ≡ taker_cents (10000 - p)
taker_cents_symmetric p h = let e : 10000 - (10000 - p) ≡ p = omega arith in rw e (omega arith)

-- The taker fee of a contract at P is that at 1 - P.
taker_fee_symmetric :
    (p : ℕ)
    → p ≤ 10000
    → taker_fee_per_contract_dollars (at4 (pos p)) default_rate
      ≡ taker_fee_per_contract_dollars (at4 (pos (10000 - p))) default_rate
taker_fee_symmetric p h =
    taker_fee-eq-cents p h
    ∙ ap cents_dollars (taker_cents_symmetric p h)
    ∙ sym (taker_fee-eq-cents (10000 - p) (omega arith))

-- Strictly between 0 and 1 a contract costs one cent or two.
pub taker_cents_inside : (p : ℕ) → 0 < p → p < 10000 → (0 < taker_cents p)
taker_cents_inside p lo hi = omega (arith, product_pos p lo hi)
  where
    product_pos : (p : ℕ) → 0 < p → p < 10000 → 0 < p * (10000 - p)
    product_pos p lo hi = grind arith

cents_dollars_pos : (c : ℕ) → 0 < c → cents_dollars c ≡ dec c 2
cents_dollars_pos zero h = absurd (omega arith)
cents_dollars_pos (suc c) h = refl

pub taker_fee-eq-dec :
    (p : ℕ)
    → 0 < p
    → p < 10000
    → taker_fee_per_contract_dollars (at4 (pos p)) default_rate ≡ dec (taker_cents p) 2
taker_fee-eq-dec p lo hi =
    taker_fee-eq-cents p (omega arith)
    ∙ cents_dollars_pos (taker_cents p) (taker_cents_inside p lo hi)

pub total_taker_fee :
    (n p : ℕ)
    → n < 10 ^ 18
    → 0 < p
    → p < 10000
    → total_fee_dollars n (at4 (pos p)) true default_rate ≡ dec (taker_cents p * n) 2
unfolding total_fee_dollars
total_taker_fee n p small lo hi =
    let c = taker_cents p in
    let bound : c ≤ 2 = taker_cents_bound p (omega arith) in
    ap (λ f. f *D of_ℕ n) (taker_fee-eq-dec p lo hi) ∙ mul_dec c n 2 0 (grind arith)

-- A maker's fee is a quarter of a taker's, to the last digit.
maker_fee_quarter :
    (n p : ℕ)
    → n < 10 ^ 18
    → 0 < p
    → p < 10000
    → (total_fee_dollars n (at4 (pos p)) true default_rate ≡ dec (taker_cents p * n) 2)
      × (total_fee_dollars n (at4 (pos p)) false default_rate ≡ dec (taker_cents p * 25 * n) 4)
unfolding total_fee_dollars maker_fee_per_contract_dollars
maker_fee_quarter n p small lo hi =
    let c = taker_cents p in
    let bound : c ≤ 2 = taker_cents_bound p (omega arith) in
    (
      total_taker_fee n p small lo hi,
      ap (λ f. f *D dec 25 2 *D of_ℕ n) (taker_fee-eq-dec p lo hi)
          ∙ ap (λ f. f *D of_ℕ n) (mul_dec c 25 2 2 (omega arith))
          ∙ mul_dec (c * 25) n 4 0 (grind arith),
    )
