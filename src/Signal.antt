-- ===== src/Signal.antt =====
-- `Signal` of kalshi_agent/strategies/base.py. The probabilities are the decimals that
-- `Decimal(str(x))` makes of the floats; the rationale is left out.
use kalshi_agent.Base.{ℕ, Bool, String, leb}
use kalshi_agent.Side.{Side}
use kalshi_agent.Decimal.{Decimal}

pub record Signal : Type 0 where
  pub market_ticker : ℕ
  pub side : Side
  pub model_probability : Decimal
  pub confidence : Decimal
  pub valid_until : ℕ
  pub strategy_name : String

unfoldable pub is_expired : ℕ → Signal → Bool
is_expired now s = leb s.valid_until now
