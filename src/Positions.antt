-- ===== src/Positions.antt =====
-- kalshi_agent/positions.py: fills applied to the positions table. `float_of` is
-- `Decimal(str(float(d)))`, what a float column gives back for a decimal written to it.
pub mod Book
pub mod Repeat
pub mod Realized
use kalshi_agent.Base.{
  ℕ, ◌+◌, ◌-◌, Bool, true, false, not, ◌&&◌, ◌||◌, Option, none, some, List, [], ◌∷◌, ◌++◌, min,
  any, or_default, ◌==◌, ltb, if◌then◌else◌,
}
use kalshi_agent.Side.{Side, yes_side, no_side, Action, buy, sell, same_side}
use kalshi_agent.Decimal.{Decimal, dec, of_ℕ, ◌+D◌, ◌-D◌, ◌*D◌, div}
use kalshi_agent.Result.{Result, ok, err, value_error, ◌>>=◌}
use kalshi_agent.Wire.{PriceText, KalshiFill, absent, price_str_to_decimal, price_decimal_to_str}
use kalshi_agent.Storage.{Ledger, Position, Fill, get_position, put_position}
use kalshi_agent.Fees.{total_fee_dollars}

abbrev pub raw_price : Side → PriceText → PriceText → PriceText
raw_price yes_side y n = y
raw_price no_side y n = n

abbrev nonempty_price : PriceText → Result Decimal
nonempty_price absent = err value_error
nonempty_price p = price_str_to_decimal p

-- `_fill_price`
unfoldable pub fill_price : KalshiFill → Result Decimal
fill_price f = nonempty_price (raw_price f.side f.yes_price_dollars f.no_price_dollars)

-- The identity that a repeated fill is known by.
unfoldable pub same_fill : ℕ → KalshiFill → Fill → Bool
same_fill now f row =
    row.kalshi_order_id == f.order_id
    && row.market_ticker == f.ticker
    && row.created_at == or_default f.created_time now
    && row.count == f.count

abbrev pub zero_price : Decimal
zero_price = dec 0 4

abbrev pub fresh_position : KalshiFill → ℕ → Position
fresh_position f now = record {
  market_ticker = f.ticker;
  side = f.side;
  count = 0;
  avg_price_dollars = zero_price;
  realized_pnl_dollars = of_ℕ 0;
  updated_at = now;
}

abbrev pub position_or_fresh : KalshiFill → ℕ → Option Position → Position
position_or_fresh f now o = or_default o (fresh_position f now)

-- A buy: the row and the realized gain, before fees.
unfoldable pub buy_position : Position → Side → ℕ → Decimal → Result (Position × Decimal)
buy_position pos side n price =
    let pair_count = min pos.count n in
    let left = pos.count - pair_count in
    let remainder = n - pair_count in
    let close_pnl_per = of_ℕ 1 -D pos.avg_price_dollars -D price in
    let realized = of_ℕ 0 +D close_pnl_per *D of_ℕ pair_count in
    let new_total = pos.avg_price_dollars *D of_ℕ pos.count +D price *D of_ℕ n in
    let new_count = pos.count + n in
    if pos.count == 0
    then (price_decimal_to_str price >>= λ avg.
        ok (record pos { side = side; count = n; avg_price_dollars = avg }, of_ℕ 0))
    else if same_side pos.side side
    then (div new_total (of_ℕ new_count) >>= λ mean. price_decimal_to_str mean >>= λ avg.
        ok (record pos { count = new_count; avg_price_dollars = avg }, of_ℕ 0))
    else if not (left == 0)
    then ok (record pos { count = left }, realized)
    else if ltb 0 remainder
    then (price_decimal_to_str price >>= λ avg.
        ok (record pos { side = side; count = remainder; avg_price_dollars = avg }, realized))
    else ok (record pos { count = 0; avg_price_dollars = zero_price }, realized)

-- A sale; one without a position changes nothing.
unfoldable pub sell_position : Position → Side → ℕ → Decimal → Position × Decimal
sell_position pos side n price =
    let n_close = min pos.count n in
    let left = pos.count - n_close in
    let realized = of_ℕ 0 +D (price -D pos.avg_price_dollars) *D of_ℕ n_close in
    if not (same_side pos.side side) || pos.count == 0
    then (pos, of_ℕ 0)
    else if left == 0
    then (record pos { count = 0; avg_price_dollars = zero_price }, realized)
    else (record pos { count = left }, realized)

unfoldable pub move_position : Action → Position → Side → ℕ → Decimal → Result (Position × Decimal)
move_position buy pos side n price = buy_position pos side n price
move_position sell pos side n price = ok (sell_position pos side n price)

-- The row that a fill leaves in the fills table.
abbrev pub fill_row : KalshiFill → ℕ → Decimal → Decimal → Fill
fill_row f now price fee = record {
  created_at = or_default f.created_time now;
  kalshi_order_id = f.order_id;
  market_ticker = f.ticker;
  side = f.side;
  count = f.count;
  price_dollars = price;
  fee_dollars = fee;
  is_taker = f.is_taker;
}

module _ (float_of : Decimal → Decimal) where
  -- A fill that is not a repeated one.
  unfoldable pub apply_new_fill : Decimal → ℕ → KalshiFill → Ledger → Result (Decimal × Ledger)
  apply_new_fill taker_rate now f db = fill_price f >>= λ price.
      let fee = total_fee_dollars f.count price f.is_taker taker_rate in
      price_decimal_to_str price >>= λ price_text. price_decimal_to_str fee >>= λ fee_text.
      let pos = position_or_fresh f now (get_position f.ticker db.positions) in
      move_position f.action pos f.side f.count price >>= λ moved.
      let realized = moved.1 -D fee in
      let row : Position = record (moved.0) {
        realized_pnl_dollars = float_of (moved.0.realized_pnl_dollars +D realized);
        updated_at = now;
      } in
      ok (
        realized,
        record {
          positions = put_position row db.positions;
          fills = db.fills ++ fill_row f now price_text fee_text ∷ [];
        },
      )

  -- The realized gain of the fill, and the tables after it.
  unfoldable pub apply_fill : Decimal → ℕ → KalshiFill → Ledger → Result (Decimal × Ledger)
  apply_fill taker_rate now f db =
      if any (same_fill now f) db.fills then ok (of_ℕ 0, db) else apply_new_fill taker_rate now f db
