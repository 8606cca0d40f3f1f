-- ===== src/Fees.antt =====
-- kalshi_agent/safety/fees.py
pub mod Cents
pub mod Bounds
pub mod Edge
use kalshi_agent.Base.{ℕ, Bool, if◌then◌else◌}
use kalshi_agent.Side.{Side, yes_side, no_side}
use kalshi_agent.Decimal.{Decimal, dec, of_ℕ, of_ℤ, ◌-D◌, ◌*D◌, quotient, ceil}

-- `Decimal("0.07")`
abbrev pub default_rate : Decimal
default_rate = dec 7 2

unfoldable pub taker_fee_per_contract_dollars : Decimal → Decimal → Decimal
unfolding ◌-D◌ ◌*D◌ ceil quotient
taker_fee_per_contract_dollars price rate =
    let raw_cents = rate *D price *D (dec 10 1 -D price) *D of_ℕ 100 in
    let cents = of_ℤ (ceil raw_cents) in quotient cents (of_ℕ 100)

unfoldable pub maker_fee_per_contract_dollars : Decimal → Decimal → Decimal
unfolding taker_fee_per_contract_dollars ◌*D◌
maker_fee_per_contract_dollars price rate = taker_fee_per_contract_dollars price rate *D dec 25 2

unfoldable pub total_fee_dollars : ℕ → Decimal → Bool → Decimal → Decimal
unfolding taker_fee_per_contract_dollars maker_fee_per_contract_dollars ◌*D◌
total_fee_dollars contracts price is_taker rate =
    (if is_taker
      then taker_fee_per_contract_dollars price rate
      else maker_fee_per_contract_dollars price rate)
    *D of_ℕ contracts

-- The probability that the bought side pays out.
abbrev pub side_probability : Decimal → Side → Decimal → Decimal
side_probability one yes_side p = p
side_probability one no_side p = one -D p

unfoldable pub edge_after_fees_dollars : ℕ → Decimal → Decimal → Side → Bool → Decimal → Decimal
unfolding total_fee_dollars ◌-D◌ ◌*D◌
edge_after_fees_dollars contracts model_probability price side is_taker rate =
    let p = side_probability (dec 10 1) side model_probability in
    let expected_per_contract = p *D (dec 10 1 -D price) -D (dec 10 1 -D p) *D price in
    let expected = expected_per_contract *D of_ℕ contracts in
    let fees = total_fee_dollars contracts price is_taker rate in expected -D fees
