-- ===== src/Tests/Orders.antt =====
-- An order of kalshi_agent/execution.py at concrete inputs.
use kalshi_agent.Base.{◌≡◌, refl, false, none, some, []}
use kalshi_agent.Base.Int.{◌*ℤ◌, ◌+ℤ◌, ◌-ℤ◌}
use kalshi_agent.Side.{yes_side, buy}
use kalshi_agent.Decimal.{
  dec, leb_D, ltb_D, ◌-D◌, ◌*D◌, ◌+D◌, sum_D, neg, ceil, digit_count, div, excess, fix,
  fix_magnitude, half_even, long_division, min_D, quotient, quantize, strip, to_4_places, truncate,
}
use kalshi_agent.Result.{ok}
use kalshi_agent.Wire.{Market, OrderRequest, price_str_to_decimal, price_decimal_to_str}
use kalshi_agent.Storage.{get_position}
use kalshi_agent.Fees.{
  edge_after_fees_dollars, maker_fee_per_contract_dollars, taker_fee_per_contract_dollars,
  total_fee_dollars,
}
use kalshi_agent.Pnl.{
  realized_pnl_since, cumulative_realized_pnl, snapshot_baseline_at_or_before, latest_at_or_before,
  later_row,
}
use kalshi_agent.Risk.{
  check_trade, ticker_refused, category_refused, daily_loss_reached, daily_realized_pnl_dollars,
  orders_in_last_minute, recent, record_order_attempt, deque_append, total_exposure, closing_buy,
  closing_decision, size_trade, opening_decision, open_size, edge_check, capped_contracts,
  position_exposure, current_position_exposure_dollars,
}
use kalshi_agent.Bankroll.{get, refresh}
use kalshi_agent.Signal.{is_expired}
use kalshi_agent.Execution.{
  handle_signal, with_market, with_price, with_bankroll, after_check, place_order, submit,
  after_send, update_order, persist_decision, reject, note_error,
}
use kalshi_agent.Execution.Orders.{Priced, sent_order_was_checked}
use kalshi_agent.Execution.Rows.{RowsKept, handle_signal-RowsKept}
use kalshi_agent.Tests.Samples.{same_text, config, now, signal, agent, inputs, market}

abbrev request : OrderRequest
request = record {
  ticker = 7;
  side = yes_side;
  action = buy;
  count_fp = 10;
  yes_price_dollars = some (dec 5000 4);
  no_price_dollars = none;
  client_order_id = 555;
}

order_sent : (handle_signal same_text config inputs signal agent).sent ≡ some request
unfolding handle_signal with_market with_price with_bankroll after_check place_order submit
    after_send update_order persist_decision reject note_error price_str_to_decimal
    price_decimal_to_str quantize to_4_places get refresh is_expired record_order_attempt
    deque_append check_trade ticker_refused category_refused orders_in_last_minute recent
    daily_loss_reached leb_D daily_realized_pnl_dollars realized_pnl_since ◌-D◌
    cumulative_realized_pnl sum_D snapshot_baseline_at_or_before latest_at_or_before neg size_trade
    closing_buy get_position ◌*ℤ◌ ◌+ℤ◌ ◌-ℤ◌ ceil digit_count div excess fix fix_magnitude half_even
    long_division ltb_D min_D quotient strip truncate ◌*D◌ ◌+D◌ edge_after_fees_dollars
    maker_fee_per_contract_dollars taker_fee_per_contract_dollars total_fee_dollars later_row
    capped_contracts closing_decision current_position_exposure_dollars edge_check open_size
    opening_decision position_exposure total_exposure
order_sent = refl

sent_order_checked :
    (is_expired now.utc signal ≡ false)
    × (m : Market) × (ok market ≡ ok m)
    × Priced same_text config inputs signal agent m request
sent_order_checked = sent_order_was_checked same_text config inputs signal agent request order_sent

sample_rows : RowsKept inputs [] (handle_signal same_text config inputs signal agent)
sample_rows = handle_signal-RowsKept same_text config inputs signal agent refl
