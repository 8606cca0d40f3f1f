-- ===== src/Risk/Trips.antt =====
-- When kalshi_agent/safety/risk_monitor.py engages the kill switch.
use kalshi_agent.Base.{◌≡◌, true, false, ◌||◌, none, some, String, arith, leb, if◌then◌else◌}
use kalshi_agent.Decimal.{ltb_D}
use kalshi_agent.Result.{ok}
use kalshi_agent.Config.{Config}
use kalshi_agent.KillSwitch.{
  Switch, is_engaged, engage, reason_of, runaway_order_rate, daily_loss_breach,
  post_hoc_exposure_breach, post_hoc_daily_loss,
}
use kalshi_agent.Risk.{
  Monitor, Now, Books, TradeRequest, rejected, Reason, check_trade, ticker_refused,
  category_refused, orders_in_last_minute, daily_loss_reached, daily_realized_pnl_dollars,
  total_exposure, background_round,
}

-- A check that finds the switch off and the market on the whitelists engages it exactly if the
-- order rate or the daily loss has reached its limit, with the order rate as the reason if both
-- have; and the trade that engages it is rejected.
pub check_trade_trips :
    (lower : String → String) (cfg : Config) (now : Now) (books : Books) (mon : Monitor)
    (t : TradeRequest)
    → ticker_refused cfg t.market_ticker ≡ false
    → category_refused lower cfg t.market_category ≡ false
    → let fast = leb cfg.risk.max_orders_per_minute (orders_in_last_minute now.monotonic mon) in
      let daily = daily_realized_pnl_dollars now books in
      let (decision, kill) = check_trade lower cfg now books mon t none in
      (is_engaged kill ≡ (fast || daily_loss_reached cfg daily))
      × (fast ≡ true → reason_of kill ≡ some runaway_order_rate)
      × (fast ≡ false → is_engaged kill ≡ true → reason_of kill ≡ some (daily_loss_breach daily))
      × (is_engaged kill ≡ true
          → decision
            ≡ ok (
                rejected (
                  if fast
                  then Reason.max_orders_per_minute_exceeded
                  else Reason.max_daily_loss_exceeded)))
unfolding check_trade engage reason_of
check_trade_trips lower cfg now books mon t tix cat = ground arith

-- A check never disengages the switch, and while it is engaged every trade is rejected.
pub engaged_rejects :
    (lower : String → String) (cfg : Config) (now : Now) (books : Books) (mon : Monitor)
    (t : TradeRequest) (kill : Switch)
    → is_engaged kill ≡ true
    → check_trade lower cfg now books mon t kill ≡ (ok (rejected Reason.kill_switch_engaged), kill)
unfolding check_trade
engaged_rejects lower cfg now books mon t kill h = ground arith

-- A round of the background loop leaves an engaged switch as it is, and engages one that is off
-- exactly if the total exposure is above its limit or the daily loss has reached it, with the
-- exposure as the reason if both have.
pub background_round_trips :
    (cfg : Config) (now : Now) (books : Books) (kill : Switch)
    → let total = total_exposure books.positions in
      let daily = daily_realized_pnl_dollars now books in
      let over = ltb_D cfg.risk.max_total_exposure_usd total in
      let kill' = background_round cfg now books kill in
      (is_engaged kill' ≡ (is_engaged kill || over || daily_loss_reached cfg daily))
      × (is_engaged kill ≡ true → kill' ≡ kill)
      × (is_engaged kill ≡ false
          → over ≡ true
          → reason_of kill' ≡ some (post_hoc_exposure_breach total))
      × (is_engaged kill ≡ false
          → over ≡ false
          → is_engaged kill' ≡ true
          → reason_of kill' ≡ some (post_hoc_daily_loss daily))
unfolding background_round engage reason_of
background_round_trips cfg now books kill = ground arith
