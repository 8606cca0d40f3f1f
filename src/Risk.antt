-- ===== src/Risk.antt =====
-- kalshi_agent/safety/risk_monitor.py: the checks of `check_trade` and of the background loop.
-- `Risk.Window` has the counters of orders and errors, `Risk.Sizing` the sizing of an order.
-- Logging is left out; the loop's handler for other exceptions only logs.
mod Window
mod Sizing
pub mod Guards
pub mod Trips
pub mod Rate
pub mod Total
pub use Window.{Monitor, fresh_monitor}
unfoldable pub use Window.{
  deque_append, recent, record_order_attempt, orders_in_last_minute, trip_on_error_spike,
  record_error,
}
pub use Sizing.{Reason, RiskDecision, TradeRequest, rejected, rejected_with, allowed_with, decide}
unfoldable pub use Sizing.{
  position_exposure, total_exposure, current_position_exposure_dollars, closing_buy,
  closing_decision, capped_contracts, open_size, edge_check, opening_decision, size_trade,
}
use kalshi_agent.Base.{
  ℕ, ◌≡◌, Bool, true, false, not, ◌&&◌, ◌||◌, Option, none, some, String, List, [], ◌∷◌, contains,
  map, leb, or_default, if◌then◌else◌,
}
use text.Mathlib.Text.{◌==◌ as str_eq}
use kalshi_agent.Decimal.{Decimal, leb_D, ltb_D, neg}
use kalshi_agent.Result.{Result, ok, err}
use kalshi_agent.Config.{Config}
use kalshi_agent.Storage.{Position, PnlDaily}
use kalshi_agent.KillSwitch.{
  Switch, is_engaged, engage, HaltReason, risk_monitor, daily_loss_breach, runaway_order_rate,
  post_hoc_exposure_breach, post_hoc_daily_loss,
}
use kalshi_agent.Pnl.{realized_pnl_since}

-- What a check reads from outside: the monotonic clock and the wall clock in microseconds, and the
-- day in the display zone, on which local midnight falls.
pub record Now : Type 0 where
  pub monotonic : ℕ
  pub utc : ℕ
  pub local_day : ℕ

-- The tables that a check reads.
pub record Books : Type 0 where
  pub positions : List Position
  pub pnl_daily : List PnlDaily

unfoldable pub daily_realized_pnl_dollars : Now → Books → Decimal
daily_realized_pnl_dollars now b = realized_pnl_since now.local_day b.positions b.pnl_daily

abbrev pub text_in : String → List String → Bool
text_in s [] = false
text_in s (t ∷ ts) = str_eq s t || text_in s ts

abbrev pub is_empty {ℓ} : {A : Type ℓ} → List A → Bool
is_empty [] = true
is_empty (_ ∷ _) = false

-- The two whitelists; `lower` is `str.lower`.
unfoldable pub ticker_refused : Config → ℕ → Bool
ticker_refused cfg t =
    not (is_empty cfg.markets.whitelist_tickers) && not (contains t cfg.markets.whitelist_tickers)

unfoldable pub category_refused : (String → String) → Config → Option String → Bool
category_refused lower cfg c =
    not (is_empty cfg.markets.whitelist_categories)
    && not (text_in (lower (or_default c "")) (map lower cfg.markets.whitelist_categories))

-- `daily_pnl <= -Decimal(max_daily_loss_usd)`
unfoldable pub daily_loss_reached : Config → Decimal → Bool
daily_loss_reached cfg pnl = leb_D pnl (neg cfg.risk.max_daily_loss_usd)

unfoldable pub check_trade :
    (String → String)
    → Config
    → Now
    → Books
    → Monitor
    → TradeRequest
    → Switch
    → Result RiskDecision × Switch
check_trade lower cfg now books mon t kill =
    let daily_pnl = daily_realized_pnl_dollars now books in
    if is_engaged kill
    then (ok (rejected Reason.kill_switch_engaged), kill)
    else if ticker_refused cfg t.market_ticker
    then (ok (rejected Reason.ticker_not_whitelisted), kill)
    else if category_refused lower cfg t.market_category
    then (ok (rejected (Reason.category_not_whitelisted t.market_category)), kill)
    else if leb cfg.risk.max_orders_per_minute (orders_in_last_minute now.monotonic mon)
    then (
      ok (rejected Reason.max_orders_per_minute_exceeded),
      engage runaway_order_rate risk_monitor now.utc kill,
    )
    else if daily_loss_reached cfg daily_pnl
    then (
      ok (rejected Reason.max_daily_loss_exceeded),
      engage (daily_loss_breach daily_pnl) risk_monitor now.utc kill,
    )
    else (size_trade cfg books.positions t, kill)

-- `engage` where the test holds.
abbrev engage_if : Bool → HaltReason → ℕ → Switch → Switch
engage_if b reason now kill = if b then engage reason risk_monitor now kill else kill

-- One round of `run_background`.
unfoldable pub background_round : Config → Now → Books → Switch → Switch
background_round cfg now books kill =
    let total_exp = total_exposure books.positions in
    let daily = daily_realized_pnl_dollars now books in
    let first =
      engage_if (ltb_D cfg.risk.max_total_exposure_usd total_exp)
        (post_hoc_exposure_breach total_exp) now.utc kill in
    if is_engaged kill
    then kill
    else engage_if (daily_loss_reached cfg daily) (post_hoc_daily_loss daily) now.utc first
