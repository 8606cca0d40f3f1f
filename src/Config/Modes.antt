-- ===== src/Config/Modes.antt =====
-- Which configurations kalshi_agent/config.py lets through.
use kalshi_agent.Base.{◌≡◌, ◌≢◌, is_some, true, Option, some, arith}
use kalshi_agent.Result.{ok}
use kalshi_agent.Config.{
  Mode, paper, live, placeholder, llm_assessor, Config, is_fraction, validate_fractions,
  validate_strategy_mode, load_config, apply_test_mode, startup_config, kalshi_base_url,
  kalshi_ws_url,
}

-- A configuration that is loaded with a mode from the command line has that mode, has fractions in
-- (0, 1] and the block of its active strategy, and does not run the placeholder live unless that is
-- allowed.
pub load_config_checked :
    (m : Mode) (raw c : Config)
    → load_config (some m) raw ≡ ok c
    → (c.mode ≡ m)
      × (is_fraction c.risk.kelly_fraction ≡ true)
      × (is_fraction c.risk.max_kelly_size_pct_bankroll ≡ true)
      × (c.strategy.active ≡ placeholder → is_some c.strategy.placeholder ≡ true)
      × (c.strategy.active ≡ llm_assessor → is_some c.strategy.llm_assessor ≡ true)
      × (c.strategy.active ≡ placeholder → m ≡ live → c.strategy.allow_placeholder_live ≡ true)
unfolding load_config validate_fractions validate_strategy_mode
load_config_checked m raw c h = ground arith

-- Test mode never runs against the live endpoint: a start with it that goes through has the paper
-- endpoints and a minimum edge of 0, and was not started with the mode live.
test_mode_is_paper :
    (over : Option Mode) (raw c : Config)
    → startup_config over true raw ≡ ok c
    → (c.mode ≡ paper)
      × (kalshi_base_url c ≡ c.kalshi.base_url_paper)
      × (kalshi_ws_url c ≡ c.kalshi.ws_url_paper)
      × (c.risk.min_edge_after_fees_bps ≡ 0)
      × (over ≢ some live)
unfolding startup_config load_config validate_fractions validate_strategy_mode apply_test_mode
    kalshi_base_url kalshi_ws_url
test_mode_is_paper over raw c h = ground arith
