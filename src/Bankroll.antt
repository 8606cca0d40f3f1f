-- ===== src/Bankroll.antt =====
-- kalshi_agent/bankroll.py: the cached balance. Times are readings of the monotonic clock in
-- microseconds; the answer of `get_balance` is the text of the balance, or what the call raised.
pub mod Cache
use kalshi_agent.Base.{
  ℕ, ◌+◌, Bool, true, false, Option, none, some, ltb, or_default, if◌then◌else◌,
}
use kalshi_agent.Decimal.{Decimal}
use kalshi_agent.Result.{Exn, Result, ok, err, api_error}
use kalshi_agent.Wire.{PriceText, price_str_to_decimal}

pub record Bankroll : Type 0 where
  pub ttl : ℕ
  pub fallback : Decimal
  pub cached : Option Decimal
  pub last_fetch : ℕ

abbrev fetched : ℕ → Bankroll → Result Decimal → Result Decimal × Bankroll
fetched now b (ok d) = (ok d, record b { cached = some d; last_fetch = now })
fetched now b (err e) = (err e, b)

-- `refresh`; only a KalshiAPIError is handled.
unfoldable pub refresh : ℕ → Result PriceText → Bankroll → Result Decimal × Bankroll
refresh now (ok text) b = fetched now b (price_str_to_decimal text)
refresh now (err api_error) b =
    let value = or_default b.cached b.fallback in (ok value, record b { cached = some value })
refresh now (err e) b = (err e, b)

-- The cache is used while it is not older than the time to live.
unfoldable pub get : ℕ → Result PriceText → Bankroll → Result Decimal × Bankroll
get now answer b = elim b.cached [
  | none ↦ refresh now answer b
  | some d ↦ if ltb (b.last_fetch + b.ttl) now then refresh now answer b else (ok d, b)
]
