-- ===== src/Tests/Trading.antt =====
-- The checks of the risk monitor and the executor at concrete inputs.
use kalshi_agent.Base.{
  ◌≤◌, ◌<◌, ◌≡◌, refl, true, false, ◌||◌, none, some, [], ◌∷◌, min, leb, arith, if◌then◌else◌,
}
use kalshi_agent.Side.{yes_side, no_side, same_side}
use kalshi_agent.Base.Int.{◌*ℤ◌, ◌+ℤ◌, ◌-ℤ◌}
use kalshi_agent.Decimal.{
  dec, of_ℕ, leb_D, ltb_D, ◌-D◌, ◌*D◌, ◌+D◌, sum_D, neg, ceil, digit_count, div, excess, fix,
  fix_magnitude, half_even, long_division, min_D, quotient, strip, truncate,
}
use kalshi_agent.Fees.{
  edge_after_fees_dollars, maker_fee_per_contract_dollars, taker_fee_per_contract_dollars,
  total_fee_dollars,
}
use kalshi_agent.Pnl.{
  realized_pnl_since, cumulative_realized_pnl, snapshot_baseline_at_or_before, latest_at_or_before,
  later_row,
}
use kalshi_agent.Result.{ok}
use kalshi_agent.Storage.{get_position}
use kalshi_agent.KillSwitch.{
  Switch, is_engaged, engage, reason_of, unreadable, runaway_order_rate, daily_loss_breach,
  post_hoc_exposure_breach, post_hoc_daily_loss, risk_monitor,
}
use kalshi_agent.Risk.{
  Monitor, RiskDecision, Reason, check_trade, ticker_refused, category_refused, daily_loss_reached,
  daily_realized_pnl_dollars, rejected, allowed_with, fresh_monitor, orders_in_last_minute,
  record_order_attempt, record_error, recent, deque_append, background_round, total_exposure,
  closing_buy, closing_decision, size_trade, opening_decision, open_size, edge_check,
  capped_contracts, position_exposure, current_position_exposure_dollars,
}
use kalshi_agent.Risk.Guards.{
  WithinLimits, allowed_trade_guards, allowed_opening_limits, allowed_closing_size,
}
use kalshi_agent.Risk.Total.{Returns, check_trade-Returns}
use kalshi_agent.Risk.Trips.{check_trade_trips, engaged_rejects, background_round_trips}
use kalshi_agent.Risk.Rate.{attempts, errors, rate_limit_rejects, error_spike_engages}
use kalshi_agent.Execution.{handle_signal}
use kalshi_agent.Execution.Stages.{Records, one_decision_per_signal}
use kalshi_agent.Tests.Samples.{
  same_text, config, now, empty_books, held_books, held_position, trade, signal, agent, inputs,
}

-- The decision on a buy of NO at 0.40 against the held 30 contracts of YES.
abbrev closing : RiskDecision
closing = closing_decision config (trade no_side (dec 4000 4)) held_position

closing_allowed :
    check_trade same_text config now held_books fresh_monitor (trade no_side (dec 4000 4)) none
    ≡ (ok closing, none)
unfolding check_trade ticker_refused category_refused orders_in_last_minute recent
    daily_loss_reached leb_D daily_realized_pnl_dollars realized_pnl_since ◌-D◌
    cumulative_realized_pnl sum_D snapshot_baseline_at_or_before latest_at_or_before neg size_trade
    closing_buy get_position ◌*ℤ◌ ◌+ℤ◌ ◌-ℤ◌ ceil digit_count div excess fix fix_magnitude half_even
    long_division ltb_D min_D quotient strip truncate ◌*D◌ ◌+D◌ edge_after_fees_dollars
    maker_fee_per_contract_dollars taker_fee_per_contract_dollars total_fee_dollars later_row
    capped_contracts closing_decision current_position_exposure_dollars edge_check open_size
    opening_decision position_exposure total_exposure
closing_allowed = refl

abbrev opening : RiskDecision
opening = allowed_with 10 (dec 20 2) (dec 1_800_000 6)

opening_allowed :
    check_trade same_text config now empty_books fresh_monitor (trade yes_side (dec 5000 4)) none
    ≡ (ok opening, none)
unfolding check_trade ticker_refused category_refused orders_in_last_minute recent
    daily_loss_reached leb_D daily_realized_pnl_dollars realized_pnl_since ◌-D◌
    cumulative_realized_pnl sum_D snapshot_baseline_at_or_before latest_at_or_before neg size_trade
    closing_buy get_position ◌*ℤ◌ ◌+ℤ◌ ◌-ℤ◌ ceil digit_count div excess fix fix_magnitude half_even
    long_division ltb_D min_D quotient strip truncate ◌*D◌ ◌+D◌ edge_after_fees_dollars
    maker_fee_per_contract_dollars taker_fee_per_contract_dollars total_fee_dollars later_row
    capped_contracts closing_decision current_position_exposure_dollars edge_check open_size
    opening_decision position_exposure total_exposure
opening_allowed = refl

abbrev switched_off : Switch
switched_off = none

opening_guards :
    (switched_off ≡ none)
    × (switched_off ≡ none)
    × (ticker_refused config 7 ≡ false)
    × (category_refused same_text config none ≡ false)
    × (orders_in_last_minute now.monotonic fresh_monitor < config.risk.max_orders_per_minute)
    × (daily_loss_reached config (daily_realized_pnl_dollars now empty_books) ≡ false)
    × (leb_D (dec 5000 4) (of_ℕ 0) ≡ false)
    × (leb_D (of_ℕ 1) (dec 5000 4) ≡ false)
opening_guards =
    allowed_trade_guards same_text config now empty_books fresh_monitor
      (trade yes_side (dec 5000 4)) none none opening opening_allowed refl

opening_limits : WithinLimits config [] (trade yes_side (dec 5000 4)) opening
opening_limits =
    allowed_opening_limits same_text config now empty_books fresh_monitor
      (trade yes_side (dec 5000 4)) none none opening opening_allowed refl
      (unfold closing_buy get_position in refl)

closing_size :
    (get_position 7 (held_position ∷ []) ≡ some held_position)
    × (same_side yes_side no_side ≡ false)
    × (closing.sized_contracts ≡ min 30 20)
    × (closing.sized_contracts ≤ 30)
    × (closing.expected_edge_dollars
        ≡ (of_ℕ 1 -D dec 4500 4 -D dec 4000 4) *D of_ℕ closing.sized_contracts
          -D closing.expected_fees_dollars)
closing_size =
    allowed_closing_size same_text config now held_books fresh_monitor (trade no_side (dec 4000 4))
      none none closing held_position closing_allowed (unfold closing_decision in refl)
      (unfold closing_buy get_position in refl)

closing_check-Returns :
    Returns
      (check_trade same_text config now held_books fresh_monitor
        (trade no_side (dec 4000 4))
        none).0
closing_check-Returns =
    check_trade-Returns same_text config now held_books fresh_monitor (trade no_side (dec 4000 4))
      none

-- Two orders in the last minute, as many as the sample configuration allows.
abbrev busy : Monitor
busy = attempts (470_000_000 ∷ 480_000_000 ∷ []) fresh_monitor

busy_check_trips :
    let fast = leb 2 (orders_in_last_minute now.monotonic busy) in
    let daily = daily_realized_pnl_dollars now empty_books in
    let (decision, kill) =
      check_trade same_text config now empty_books busy (trade yes_side (dec 5000 4)) none in
    (is_engaged kill ≡ (fast || daily_loss_reached config daily))
    × (fast ≡ true → reason_of kill ≡ some runaway_order_rate)
    × (fast ≡ false → is_engaged kill ≡ true → reason_of kill ≡ some (daily_loss_breach daily))
    × (is_engaged kill ≡ true
        → decision
          ≡ ok (
              rejected (
                if fast
                then Reason.max_orders_per_minute_exceeded
                else Reason.max_daily_loss_exceeded)))
busy_check_trips =
    check_trade_trips same_text config now empty_books busy (trade yes_side (dec 5000 4))
      (unfold ticker_refused in refl) (unfold category_refused in refl)

halted_check :
    check_trade same_text config now empty_books fresh_monitor
      (trade yes_side (dec 5000 4))
      (some unreadable)
    ≡ (ok (rejected Reason.kill_switch_engaged), some unreadable)
halted_check =
    engaged_rejects same_text config now empty_books fresh_monitor (trade yes_side (dec 5000 4))
      (some unreadable) refl

background_on_held :
    let total = total_exposure held_books.positions in
    let daily = daily_realized_pnl_dollars now held_books in
    let over = ltb_D (of_ℕ 100) total in
    let kill' = background_round config now held_books none in
    (is_engaged kill' ≡ (false || over || daily_loss_reached config daily))
    × (false ≡ true → kill' ≡ none)
    × (false ≡ false → over ≡ true → reason_of kill' ≡ some (post_hoc_exposure_breach total))
    × (false ≡ false
        → over ≡ false
        → is_engaged kill' ≡ true
        → reason_of kill' ≡ some (post_hoc_daily_loss daily))
background_on_held = background_round_trips config now held_books none

-- The decision on a third order in a minute.
abbrev rate_decision : RiskDecision
rate_decision = rejected Reason.max_orders_per_minute_exceeded

busy_checked :
    check_trade same_text config now empty_books busy (trade yes_side (dec 5000 4)) none
    ≡ (ok rate_decision, engage runaway_order_rate risk_monitor now.utc none)
unfolding check_trade ticker_refused category_refused orders_in_last_minute record_order_attempt
    deque_append recent daily_loss_reached
busy_checked = refl

third_order_refused : rate_decision.allowed ≡ false
third_order_refused =
    rate_limit_rejects same_text config now empty_books fresh_monitor (trade yes_side (dec 5000 4))
      none (engage runaway_order_rate risk_monitor now.utc none) (470_000_000 ∷ 480_000_000 ∷ [])
      rate_decision (omega arith, (omega arith, tt)) (omega arith) (omega arith) busy_checked

second_error_engages :
    let (m, kill) = errors config ((470_000_000, 1) ∷ []) (fresh_monitor, none) in
    is_engaged (record_error config 500_000_000 2 m kill).1 ≡ true
second_error_engages =
    error_spike_engages config ((470_000_000, 1) ∷ []) 500_000_000 2 fresh_monitor none
      (omega arith, tt) (omega arith) (omega arith)

signal_recorded : Records 0 (handle_signal same_text config inputs signal agent)
signal_recorded = one_decision_per_signal same_text config inputs signal agent
