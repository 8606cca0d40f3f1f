-- ===== src/Config.antt =====
-- kalshi_agent/config.py: the settings that the modelled code reads, their validators, the choice
-- of the endpoint and the test mode. Amounts are the decimals that `Decimal(...)` makes of the
-- floats in the file; parsing YAML, defaults and the secrets are left out.
pub mod Modes
use kalshi_agent.Base.{
  ℕ, Bool, true, false, not, ◌&&◌, ◌||◌, Option, none, some, String, List, is_some, if◌then◌else◌,
}
use kalshi_agent.Decimal.{Decimal, of_ℕ, leb_D, ltb_D}
use kalshi_agent.Result.{Result, ok, err, value_error, ◌>>=◌}

pub data Mode : Type 0 where
  paper live : Mode

pub data Active : Type 0 where
  placeholder llm_assessor : Active

pub record KalshiConfig : Type 0 where
  pub base_url_paper : String
  pub base_url_live : String
  pub ws_url_paper : String
  pub ws_url_live : String

pub record RiskConfig : Type 0 where
  pub max_position_per_market_usd : Decimal
  pub max_total_exposure_usd : Decimal
  pub max_daily_loss_usd : Decimal
  pub per_order_max_contracts : ℕ
  pub max_orders_per_minute : ℕ
  pub min_edge_after_fees_bps : ℕ
  pub kelly_fraction : Decimal
  pub max_kelly_size_pct_bankroll : Decimal
  pub error_spike_threshold : ℕ
  pub error_spike_window_seconds : ℕ

pub record FeesConfig : Type 0 where
  pub taker_rate : Decimal
  pub assume_taker : Bool

pub record MarketsConfig : Type 0 where
  pub whitelist_categories : List String
  pub whitelist_tickers : List ℕ

pub record PlaceholderConfig : Type 0 where
  pub test_ticker : ℕ
  pub emit_interval_seconds : ℕ

pub record AssessorConfig : Type 0 where
  pub tickers : List ℕ
  pub categories : List String
  pub max_markets_per_tick : ℕ
  pub min_volume_contracts : ℕ
  -- In microseconds.
  pub min_hours_to_close : ℕ
  pub discovery_max_pages : ℕ
  pub min_edge : Decimal
  pub min_confidence : Decimal
  pub signal_ttl_minutes : ℕ
  pub min_seconds_between_signals_per_ticker : ℕ

pub record StrategyConfig : Type 0 where
  pub active : Active
  pub placeholder : Option PlaceholderConfig
  pub llm_assessor : Option AssessorConfig
  pub allow_placeholder_live : Bool

pub record Config : Type 0 where
  pub mode : Mode
  pub kalshi : KalshiConfig
  pub risk : RiskConfig
  pub fees : FeesConfig
  pub markets : MarketsConfig
  pub strategy : StrategyConfig

-- `0 < v <= 1`
unfoldable pub is_fraction : Decimal → Bool
unfolding ltb_D leb_D
is_fraction v = ltb_D (of_ℕ 0) v && leb_D v (of_ℕ 1)

-- `RiskConfig._fraction`, at both of its fields.
unfoldable pub validate_fractions : RiskConfig → Result RiskConfig
unfolding is_fraction
validate_fractions r =
    if is_fraction r.kelly_fraction && is_fraction r.max_kelly_size_pct_bankroll
    then ok r
    else err value_error

abbrev is_placeholder : Active → Bool
is_placeholder placeholder = true
is_placeholder llm_assessor = false

abbrev pub is_live : Mode → Bool
is_live live = true
is_live paper = false

-- `Config._validate_strategy_mode`
unfoldable pub validate_strategy_mode : Config → Result Config
validate_strategy_mode c =
    let s = c.strategy in
    if is_placeholder s.active && not (is_some s.placeholder)
    then err value_error
    else if not (is_placeholder s.active) && not (is_some s.llm_assessor)
    then err value_error
    else if is_live c.mode && is_placeholder s.active && not s.allow_placeholder_live
    then err value_error
    else ok c

-- The mode that the command line gives replaces that of the file, before the validation.
abbrev override_mode : Option Mode → Config → Config
override_mode none c = c
override_mode (some m) c = record c { mode = m }

unfoldable pub load_config : Option Mode → Config → Result Config
unfolding validate_fractions validate_strategy_mode
load_config mode_override raw =
    validate_fractions raw.risk >>= λ _. validate_strategy_mode (override_mode mode_override raw)

unfoldable pub kalshi_base_url : Config → String
kalshi_base_url c = if is_live c.mode then c.kalshi.base_url_live else c.kalshi.base_url_paper

unfoldable pub kalshi_ws_url : Config → String
kalshi_ws_url c = if is_live c.mode then c.kalshi.ws_url_live else c.kalshi.ws_url_paper

abbrev zero_thresholds : AssessorConfig → AssessorConfig
zero_thresholds a = record a {
  min_confidence = of_ℕ 0;
  min_edge = of_ℕ 0;
  min_seconds_between_signals_per_ticker = 0;
}

abbrev zero_assessor : Option AssessorConfig → Option AssessorConfig
zero_assessor none = none
zero_assessor (some a) = some (zero_thresholds a)

unfoldable pub apply_test_mode : Config → Result Config
apply_test_mode c =
    if is_live c.mode
    then err value_error
    else ok (record c {
      risk = record (c.risk) { min_edge_after_fees_bps = 0 };
      strategy = record (c.strategy) { llm_assessor = zero_assessor c.strategy.llm_assessor };
    })

-- The start of `amain`: the configuration that the components are built from.
unfoldable pub startup_config : Option Mode → Bool → Config → Result Config
unfolding load_config apply_test_mode
startup_config mode_override test_mode raw =
    load_config mode_override raw >>= λ c. if test_mode then apply_test_mode c else ok c
