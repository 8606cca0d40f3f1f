-- ===== src/Fees/Edge.antt =====
-- The expected edge of a trade, for prices and probabilities of four decimals.
use kalshi_agent.Base.{ℕ, ◌+◌, ◌-◌, ◌*◌, ◌^◌, ◌≤◌, ◌<◌, ◌≡◌, true, ap, ◌∙◌, arith}
use kalshi_agent.Base.Int.{pos, magnitude, ◌-ℤ◌, ◌*ℤ◌, int_laws, -ℤ_parts, eq_of_parts}
use kalshi_agent.Side.{Side, yes_side, no_side}
use kalshi_agent.Decimal.{dec, of_ℕ, ◌*D◌, ◌-D◌}
use kalshi_agent.Decimal.Exact.{
  at4, at8, mul_dec, sub8, mul8, sub8_2, *ℤ_pos_parts, magnitude_sub, magnitude_sub_pos,
  magnitude_mul,
}
use kalshi_agent.Fees.{default_rate, edge_after_fees_dollars}
use kalshi_agent.Fees.Cents.{taker_cents, taker_cents_bound, unit_sub4_pos}
use kalshi_agent.Fees.Bounds.{total_taker_fee}

-- The probability of the side, in ten-thousandths.
abbrev pub side_points : Side → ℕ → ℕ
side_points yes_side q = q
side_points no_side q = 10000 - q

product_below : (a b : ℕ) → a ≤ 10000 → b ≤ 10000 → a * (10000 - b) ≤ 100_000_000
product_below a b ha hb = grind arith

complement_product : (a b : ℕ) → b ≤ 10000 → a * (10000 - b) + a * b ≡ a * 10000
complement_product a b h =
    let e : 10000 - b + b ≡ 10000 = omega arith in omega (arith, ap (λ (t : ℕ). a * t) e)

payoff_exact :
    (w p : ℕ)
    → w ≤ 10000
    → p ≤ 10000
    → at4 (pos w) *D (dec 10 1 -D at4 (pos p)) -D (dec 10 1 -D at4 (pos w)) *D at4 (pos p)
      ≡ at8 (pos (w * 10000) -ℤ pos (p * 10000))
payoff_exact w p hw hp =
    let wins = w * (10000 - p) in
    let losses = (10000 - w) * p in
    let small : wins + losses < 10 ^ 28 =
      omega (arith, product_below w p hw hp, product_below p w hp hw) in
    let same : pos wins -ℤ pos losses ≡ pos (w * 10000) -ℤ pos (p * 10000) =
      eq_of_parts (pos wins -ℤ pos losses) (pos (w * 10000) -ℤ pos (p * 10000))
        (omega (int_laws, complement_product w p hp, complement_product p w hw)) in
    rw
      (
        unit_sub4_pos p hp,
        unit_sub4_pos w hw,
        mul_dec w (10000 - p) 4 4 (omega arith),
        mul_dec (10000 - w) p 4 4 (omega arith),
      )
      (sub8 (pos wins) (pos losses) (omega (arith, magnitude_sub wins losses)) ∙ ap at8 same)

module _ (n p : ℕ) (small : n < 10 ^ 18) (lo : 0 < p) (hi : p < 10000) where
  margin_exact :
      (w : ℕ)
      → w ≤ 10000
      → at8 (pos (w * 10000) -ℤ pos (p * 10000)) *D of_ℕ n -D dec (taker_cents p * n) 2
        ≡ at8 (pos (n * (w * 10000)) -ℤ pos (n * (p * 10000 + taker_cents p * 10 ^ 6)))
  margin_exact w hw =
      let c = taker_cents p in
      let z = pos (w * 10000) -ℤ pos (p * 10000) in
      let zn = z *ℤ pos n in
      let bound : c ≤ 2 = taker_cents_bound p (omega arith) in
      let one : magnitude z ≤ 200_000_000 = omega (arith, magnitude_sub (w * 10000) (p * 10000)) in
      let many : magnitude z * n < 10 ^ 27 = grind arith in
      let fees : c * n * 10 ^ 6 < 10 ^ 27 = grind arith in
      ap (λ d. d -D dec (c * n) 2) (mul8 z n (omega (arith, magnitude_mul z n)))
      ∙ sub8_2 zn (c * n) (omega (arith, magnitude_sub_pos zn (c * n * 10 ^ 6), magnitude_mul z n))
      ∙ ap at8 (
          eq_of_parts (zn -ℤ pos (c * n * 10 ^ 6))
            (pos (n * (w * 10000)) -ℤ pos (n * (p * 10000 + c * 10 ^ 6)))
            (omega (
              int_laws,
              *ℤ_pos_parts z n,
              ap (λ (t : ℕ). t * n) (-ℤ_parts (pos (w * 10000)) (pos (p * 10000))),
            )))

-- At the default taker rate the edge of n contracts is n times the probability of the bought side
-- less the price less the fee, in units of 10 ^ -8 dollars.
pub edge_is_margin :
    (n q p : ℕ) (side : Side)
    → n < 10 ^ 18
    → q ≤ 10000
    → 0 < p
    → p < 10000
    → edge_after_fees_dollars n (at4 (pos q)) (at4 (pos p)) side true default_rate
      ≡ at8
          (pos (n * (side_points side q * 10000)) -ℤ pos (n * (p * 10000 + taker_cents p * 10 ^ 6)))
unfolding edge_after_fees_dollars
edge_is_margin n q p yes_side small hq lo hi =
    rw (payoff_exact q p hq (omega arith), total_taker_fee n p small lo hi)
      (margin_exact n p small lo hi q hq)
edge_is_margin n q p no_side small hq lo hi =
    rw
      (
        unit_sub4_pos q hq,
        payoff_exact (10000 - q) p (omega arith) (omega arith),
        total_taker_fee n p small lo hi,
      )
      (margin_exact n p small lo hi (10000 - q) (omega arith))
