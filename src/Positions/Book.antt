-- ===== src/Positions/Book.antt =====
-- What a fill does to the holdings, in kalshi_agent/positions.py.
use kalshi_agent.Base.{
  ℕ, ◌≡◌, true, false, Option, none, some, List, [], ◌∷◌, ◌++◌, min, ◌==◌, inl, inr, if◌then◌else◌,
  arith, Option-cases, ◌∙◌, ◌≢◌,
}
use kalshi_agent.Base.Int.{ℤ, pos, sub_ℕ, ◌+ℤ◌}
use kalshi_agent.Side.{Side, yes_side, no_side, buy, sell, same_side}
use kalshi_agent.Decimal.{Decimal, ◌+D◌, ◌-D◌}
use kalshi_agent.Result.{ok, Result-cases}
use kalshi_agent.Wire.{KalshiFill, price_decimal_to_str}
use kalshi_agent.Fees.{total_fee_dollars}
use kalshi_agent.Storage.{Ledger, Position, get_position, put_position}
use kalshi_agent.Storage.Positions.{get-put_position, get_position_ticker}
use kalshi_agent.Positions.{
  fill_price, position_or_fresh, buy_position, sell_position, move_position, apply_new_fill,
  fill_row,
}

-- Contracts of the YES side count up, those of the NO side down, as in `KalshiPosition.position`.
abbrev pub signed_count : Side → ℕ → ℤ
signed_count yes_side n = pos n
signed_count no_side n = sub_ℕ 0 n

abbrev pub signed : Position → ℤ
signed p = signed_count p.side p.count

abbrev pub held : Option Position → ℤ
held none = pos 0
held (some p) = signed p

-- The signed number of contracts of a market.
abbrev pub holding : ℕ → List Position → ℤ
holding t ps = held (get_position t ps)

signed-buy_position :
    (p : Position) (side : Side) (n : ℕ) (price : Decimal) (p' : Position) (r : Decimal)
    → buy_position p side n price ≡ ok (p', r)
    → (signed p' ≡ signed p +ℤ signed_count side n) × (p'.market_ticker ≡ p.market_ticker)
unfolding buy_position ◌+ℤ◌
signed-buy_position p side n price p' r e = ground arith

signed-sell_position :
    (p : Position) (side : Side) (n : ℕ) (price : Decimal)
    → let (p', r) = sell_position p side n price in
      (p'.market_ticker ≡ p.market_ticker)
      × (same_side p.side side ≡ true → signed p' +ℤ signed_count side (min p.count n) ≡ signed p)
      × (same_side p.side side ≡ false → p' ≡ p)
unfolding sell_position ◌+ℤ◌
signed-sell_position p side n price = ground arith

module _ (float_of : Decimal → Decimal) (rate : Decimal) (now : ℕ) (f : KalshiFill)
    (db : Ledger) where
  abbrev pub row_before : Position
  row_before = position_or_fresh f now (get_position f.ticker db.positions)

  -- The parts of a call of `apply_new_fill` that returns.
  pub record Applied (r : Decimal) (db' : Ledger) : Type 0 where
    pub price : Decimal
    pub price_text : Decimal
    pub fee_text : Decimal
    pub moved : Position × Decimal
    pub priced : fill_price f ≡ ok price
    pub price_quantized : price_decimal_to_str price ≡ ok price_text
    pub fee_quantized :
        price_decimal_to_str (total_fee_dollars f.count price f.is_taker rate) ≡ ok fee_text
    pub moves : move_position f.action row_before f.side f.count price ≡ ok moved
    pub gain : r ≡ moved.1 -D total_fee_dollars f.count price f.is_taker rate
    pub positions :
        db'.positions
        ≡ put_position
            (record (moved.0) {
              realized_pnl_dollars = float_of (moved.0.realized_pnl_dollars +D r);
              updated_at = now;
            })
            db.positions
    pub fills : db'.fills ≡ db.fills ++ fill_row f now price_text fee_text ∷ []

  pub apply_new_fill-Applied :
      (r : Decimal) (db' : Ledger)
      → apply_new_fill float_of rate now f db ≡ ok (r, db')
      → Applied r db'
  unfolding apply_new_fill
  apply_new_fill-Applied r db' e = elim (Result-cases (fill_price f)) [
    | inr (x, q) ↦ absurd (ground arith)
    | inl (price, q) ↦
        let fee = total_fee_dollars f.count price f.is_taker rate in
        elim (Result-cases (price_decimal_to_str price)) [
          | inr (x, pq) ↦ absurd (ground arith)
          | inl (price_text, pq) ↦ elim (Result-cases (price_decimal_to_str fee)) [
            | inr (x, fq) ↦ absurd (ground arith)
            | inl (fee_text, fq) ↦
                elim (Result-cases (move_position f.action row_before f.side f.count price)) [
                  | inr (x, m) ↦ absurd (ground arith)
                  | inl (moved, m) ↦ record {
                    price = price;
                    price_text = price_text;
                    fee_text = fee_text;
                    moved = moved;
                    priced = q;
                    price_quantized = pq;
                    fee_quantized = fq;
                    moves = m;
                    gain = ground arith;
                    positions = ground arith;
                    fills = ground arith;
                  }
                ]
          ]
        ]
  ]

  row_before_ticker : row_before.market_ticker ≡ f.ticker
  row_before_ticker = elim (Option-cases (get_position f.ticker db.positions)) [
    | inl e ↦ ground arith
    | inr (p, e) ↦ ground (arith, get_position_ticker f.ticker db.positions p)
  ]

  signed-row_before : signed row_before ≡ holding f.ticker db.positions
  signed-row_before = ground arith

  holding_after :
      (r : Decimal) (db' : Ledger) (ap : Applied r db') (t : ℕ)
      → ap.moved.0.market_ticker ≡ f.ticker
      → holding t db'.positions
        ≡ (if t == f.ticker then signed ap.moved.0 else holding t db.positions)
  holding_after r db' ap t same =
      let row : Position = record (ap.moved.0) {
        realized_pnl_dollars = float_of (ap.moved.0.realized_pnl_dollars +D r);
        updated_at = now;
      } in
      rw ap.positions (rw get-put_position (ground arith))

  -- A buy that is applied moves the holding of its market by its signed count, also where it
  -- closes the other side and where it turns the position over; no other holding moves.
  pub buy_moves_holding :
      (r : Decimal) (db' : Ledger)
      → apply_new_fill float_of rate now f db ≡ ok (r, db')
      → f.action ≡ buy
      → (t : ℕ)
      → holding t db'.positions ≡ (
          if t == f.ticker
          then holding t db.positions +ℤ signed_count f.side f.count
          else holding t db.positions)
  buy_moves_holding r db' e is_buy t =
      let ap = apply_new_fill-Applied r db' e in
      let bought : buy_position row_before f.side f.count ap.price ≡ ok (ap.moved.0, ap.moved.1) =
        unfold move_position in ground (arith, ap.moves) in
      let (moves, ticker) =
        signed-buy_position row_before f.side f.count ap.price ap.moved.0 ap.moved.1 bought in
      ground
        (arith, moves, signed-row_before, holding_after r db' ap t (ticker ∙ row_before_ticker))

  -- A sale that is applied gives up at most what is held of its side, and changes no holding of the
  -- other side and of other markets.
  pub sell_moves_holding :
      (r : Decimal) (db' : Ledger)
      → apply_new_fill float_of rate now f db ≡ ok (r, db')
      → f.action ≡ sell
      → (t : ℕ)
      → (t ≢ f.ticker → holding t db'.positions ≡ holding t db.positions)
        × (same_side row_before.side f.side ≡ false
            → holding f.ticker db'.positions ≡ holding f.ticker db.positions)
        × (same_side row_before.side f.side ≡ true
            → holding f.ticker db'.positions +ℤ signed_count f.side (min row_before.count f.count)
              ≡ holding f.ticker db.positions)
  sell_moves_holding r db' e is_sell t =
      let ap = apply_new_fill-Applied r db' e in
      let sold : sell_position row_before f.side f.count ap.price ≡ (ap.moved.0, ap.moved.1) =
        unfold move_position in ground (arith, ap.moves) in
      let moves = signed-sell_position row_before f.side f.count ap.price in
      let same : ap.moved.0.market_ticker ≡ f.ticker = ground (arith, moves, row_before_ticker) in
      ground (
        arith,
        moves,
        signed-row_before,
        holding_after r db' ap t same,
        holding_after r db' ap f.ticker same,
      )
