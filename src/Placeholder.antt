-- ===== src/Placeholder.antt =====
-- kalshi_agent/strategies/placeholder.py: one signal per interval. Times are microseconds.
use kalshi_agent.Base.{
  ℕ, ◌+◌, ◌*◌, Bool, false, Option, none, some, List, [], ◌∷◌, ltb, if◌then◌else◌,
}
use kalshi_agent.Side.{yes_side}
use kalshi_agent.Decimal.{dec}
use kalshi_agent.Signal.{Signal}

pub record Placeholder : Type 0 where
  pub ticker : ℕ
  pub interval : ℕ
  pub last_emit : Option ℕ

abbrev pub placeholder_signal : ℕ → ℕ → Signal
placeholder_signal ticker utc = record {
  market_ticker = ticker;
  side = yes_side;
  model_probability = dec 55 2;
  confidence = dec 1 1;
  valid_until = utc + 5 * 60 * 1_000_000;
  strategy_name = "placeholder";
}

-- `now - last_emit < interval`
abbrev is_early : ℕ → Placeholder → Bool
is_early now p = elim p.last_emit [ none ↦ false | some t ↦ ltb now (t + p.interval) ]

unfoldable pub emit : ℕ → ℕ → Placeholder → List Signal × Placeholder
emit now utc p =
    if is_early now p
    then ([], p)
    else (placeholder_signal p.ticker utc ∷ [], record p { last_emit = some now })
