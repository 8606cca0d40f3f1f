-- ===== src/Tests/Money.antt =====
-- The fees, the configuration, the kill switch, the baseline and the bankroll at concrete inputs.
use kalshi_agent.Base.{ℕ, ◌-◌, ◌*◌, ◌^◌, ◌+◌, ◌≤◌, ◌<◌, ◌≡◌, refl, is_some, true, arith}
use kalshi_agent.Base.Int.{pos, ◌-ℤ◌}
use kalshi_agent.Side.{no_side}
use kalshi_agent.Decimal.{dec, of_ℕ, ltb_D, leb_D}
use kalshi_agent.Decimal.Exact.{at4, at8}
use kalshi_agent.Fees.{default_rate, taker_fee_per_contract_dollars, edge_after_fees_dollars}
use kalshi_agent.Fees.Cents.{taker_cents, cents_dollars}
use kalshi_agent.Fees.Bounds.{taker_fee_least_cents}
use kalshi_agent.Fees.Edge.{edge_is_margin}
use kalshi_agent.Config.{
  Config, paper, live, placeholder, llm_assessor, load_config, is_fraction, validate_fractions,
  validate_strategy_mode,
}
use kalshi_agent.Config.Modes.{load_config_checked}
use kalshi_agent.Storage.{PnlDaily}
use kalshi_agent.Tests.Samples.{config}

fee_at_half :
    (c : ℕ) × (taker_fee_per_contract_dollars (at4 (pos 5000)) default_rate ≡ cents_dollars c)
    × (7 * 5000 * (10000 - 5000) ≤ c * 10 ^ 8)
    × (c * 10 ^ 8 < 7 * 5000 * (10000 - 5000) + 10 ^ 8)
    × (c ≤ 2)
fee_at_half = taker_fee_least_cents 5000 (omega arith)

edge_of_no_side :
    edge_after_fees_dollars 10 (at4 (pos 3000)) (at4 (pos 5000)) no_side true default_rate
    ≡ at8 (pos (10 * (7000 * 10000)) -ℤ pos (10 * (5000 * 10000 + taker_cents 5000 * 10 ^ 6)))
edge_of_no_side =
    edge_is_margin 10 3000 5000 no_side (omega arith) (omega arith) (omega arith) (omega arith)

config_loaded :
    (config.mode ≡ paper)
    × (is_fraction config.risk.kelly_fraction ≡ true)
    × (is_fraction config.risk.max_kelly_size_pct_bankroll ≡ true)
    × (config.strategy.active ≡ placeholder → is_some config.strategy.placeholder ≡ true)
    × (config.strategy.active ≡ llm_assessor → is_some config.strategy.llm_assessor ≡ true)
    × (config.strategy.active ≡ placeholder
        → paper ≡ live
        → config.strategy.allow_placeholder_live ≡ true)
config_loaded =
    load_config_checked paper config config
      (unfold load_config validate_fractions is_fraction ltb_D leb_D validate_strategy_mode in refl)

-- The sample configuration as a start in test mode changes it.
abbrev config_in_test : Config
config_in_test = record config { risk = record (config.risk) { min_edge_after_fees_bps = 0 } }

abbrev snapshot : ℕ → ℕ → PnlDaily
snapshot day cents = record {
  day = day;
  realized_pnl = dec cents 2;
  fees = of_ℕ 0;
  trade_count = 1;
  updated_at = 0;
}
