-- ===== src/Tests/Books.antt =====
-- The fills, the positions and the reconciliation at concrete inputs.
use kalshi_agent.Base.{
  ℕ, ◌+◌, ◌-◌, ◌<◌, ◌≡◌, ◌≢◌, refl, true, false, some, [], ◌∷◌, min, arith, if◌then◌else◌, ◌==◌,
  ◌≤◌, or_default, none,
}
use kalshi_agent.Base.Int.{pos, negsuc, ◌+ℤ◌, ◌-ℤ◌, ◌*ℤ◌}
use kalshi_agent.Side.{yes_side, no_side, buy, sell, same_side}
use kalshi_agent.Decimal.{
  Decimal, dec, ◌-D◌, ◌*D◌, ◌+D◌, neg, ceil, digit_count, div, excess, fix, fix_magnitude,
  half_even, long_division, quotient, quantize, strip, to_4_places,
}
use kalshi_agent.Decimal.Exact.{at4}
use kalshi_agent.Result.{ok, err, api_error}
use kalshi_agent.Wire.{price_decimal_to_str, price_str_to_decimal}
use kalshi_agent.Storage.{Ledger, Position, get_position, put_position}
use kalshi_agent.Fees.{default_rate, taker_fee_per_contract_dollars, total_fee_dollars}
use kalshi_agent.Positions.{
  fill_price, buy_position, sell_position, move_position, apply_new_fill, apply_fill,
}
use kalshi_agent.Positions.Book.{
  holding, signed_count, row_before, buy_moves_holding, sell_moves_holding,
}
use kalshi_agent.Positions.Realized.{closing_buy_gain}
use kalshi_agent.Fills.Poll.{poll_loop, poll_loop_mark}
use kalshi_agent.Fills.{seconds, post_fill, Progress, Ingestor, note_fill, ingest_fill, ingest_page}
use kalshi_agent.Fills.Pages.{page_again_changes_nothing}
use kalshi_agent.Reconcile.{
  Work, missing_local, missing_remote, reconcile_positions, settle_all, settle, realized_of,
  remote_by_ticker, put_remote, find_remote, target, close_absent,
}
use kalshi_agent.Reconcile.Mirror.{remote_holding, reconciled_mirrors_kalshi}
use kalshi_agent.Tests.Samples.{
  same_decimal, fill, empty_ledger, db, held_position, remote_position,
}

-- What a fill of the samples leaves in an empty ledger, and the gain that it reports.
abbrev filled_ledger : ℕ → Ledger
filled_ledger time = record {
  positions =
      record {
        market_ticker = 7;
        side = yes_side;
        count = 10;
        avg_price_dollars = dec 6500 4;
        realized_pnl_dollars = record { coef = negsuc 19; places = 2 };
        updated_at = 5;
      }
      ∷ [];
  fills =
      record {
        created_at = time;
        kalshi_order_id = 41;
        market_ticker = 7;
        side = yes_side;
        count = 10;
        price_dollars = dec 6500 4;
        fee_dollars = dec 2000 4;
        is_taker = true;
      }
      ∷ [];
}

abbrev fees_paid : Decimal
fees_paid = record { coef = negsuc 19; places = 2 }

fill_applied :
    apply_new_fill same_decimal default_rate 5 (fill buy (some 3_000_000)) empty_ledger
    ≡ ok (fees_paid, filled_ledger 3_000_000)
unfolding apply_new_fill fill_price price_str_to_decimal price_decimal_to_str quantize
    total_fee_dollars taker_fee_per_contract_dollars move_position buy_position get_position
    put_position ◌*ℤ◌ ◌+ℤ◌ ◌-ℤ◌ ceil digit_count div excess fix fix_magnitude half_even
    long_division neg quotient strip to_4_places ◌*D◌ ◌+D◌ ◌-D◌
fill_applied = refl

fill_ingested :
    apply_fill same_decimal default_rate 5 (fill buy (some 3_000_000)) empty_ledger
    ≡ ok (fees_paid, filled_ledger 3_000_000)
unfolding apply_fill
fill_ingested = fill_applied

buy_moves_sample :
    holding 7 (filled_ledger 3_000_000).positions
    ≡ (if 7 == 7 then holding 7 [] +ℤ signed_count yes_side 10 else holding 7 [])
buy_moves_sample =
    buy_moves_holding same_decimal default_rate 5 (fill buy (some 3_000_000)) empty_ledger fees_paid
      (filled_ledger 3_000_000) fill_applied refl 7

-- A sale with nothing held: the fee is booked and no contract moves.
abbrev sold_ledger : Ledger
sold_ledger = record (filled_ledger 3_000_000) {
  positions =
      record {
        market_ticker = 7;
        side = yes_side;
        count = 0;
        avg_price_dollars = dec 0 4;
        realized_pnl_dollars = fees_paid;
        updated_at = 5;
      }
      ∷ [];
}

sale_applied :
    apply_new_fill same_decimal default_rate 5 (fill sell (some 3_000_000)) empty_ledger
    ≡ ok (fees_paid, sold_ledger)
unfolding apply_new_fill fill_price price_str_to_decimal price_decimal_to_str quantize
    total_fee_dollars taker_fee_per_contract_dollars move_position sell_position get_position
    put_position ◌*ℤ◌ ◌+ℤ◌ ◌-ℤ◌ ceil digit_count div excess fix fix_magnitude half_even
    long_division neg quotient strip to_4_places ◌*D◌ ◌+D◌ ◌-D◌
sale_applied = refl

sell_moves_sample :
    (◌≢◌ {A = ℕ} 7 7 → holding 7 sold_ledger.positions ≡ holding 7 [])
    × (same_side
            (row_before same_decimal default_rate 5 (fill sell (some 3_000_000)) empty_ledger).side
            yes_side
          ≡ false
        → holding 7 sold_ledger.positions ≡ holding 7 [])
    × (same_side
            (row_before same_decimal default_rate 5 (fill sell (some 3_000_000)) empty_ledger).side
            yes_side
          ≡ true
        → holding 7 sold_ledger.positions
            +ℤ signed_count yes_side (
                min
                  (row_before same_decimal default_rate 5
                    (fill sell (some 3_000_000))
                    empty_ledger).count
                  10)
          ≡ holding 7 [])
sell_moves_sample =
    sell_moves_holding same_decimal default_rate 5 (fill sell (some 3_000_000)) empty_ledger
      fees_paid sold_ledger sale_applied refl 7

-- 30 contracts of YES at 0.45, paired with 40 of NO at 0.40.
abbrev turned_over : Position
turned_over = record held_position { side = no_side; count = 10; avg_price_dollars = dec 4000 4 }

pairing : buy_position held_position no_side 40 (at4 (pos 4000)) ≡ ok (turned_over, dec 45000 4)
unfolding buy_position price_decimal_to_str quantize ◌*ℤ◌ ◌+ℤ◌ ◌-ℤ◌ digit_count excess fix
    fix_magnitude half_even neg to_4_places ◌*D◌ ◌+D◌ ◌-D◌
pairing = refl

pairing_gain :
    (dec 45000 4 ≡ at4 ((pos 10000 -ℤ pos 4500 -ℤ pos 4000) *ℤ pos (min 30 40)))
    × (10 ≡ (30 - 40) + (40 - 30))
    × (30 < 40 → no_side ≡ no_side)
    × (40 < 30 → (no_side ≡ yes_side) × (dec 4000 4 ≡ dec 4500 4))
pairing_gain =
    closing_buy_gain held_position no_side 40 4500 4000 turned_over (dec 45000 4) refl (omega arith)
      (omega arith) (omega arith) (omega arith) refl pairing

abbrev start : Progress
start = record { applied = 0; max_ts_seen = 0; db = db }

abbrev after_fill : Progress
after_fill =
    note_fill false same_decimal default_rate 5 (fill buy (some 3_000_000)) start fees_paid
      (filled_ledger 3_000_000)

page_ingested :
    ingest_page false same_decimal default_rate 5 (fill buy (some 3_000_000) ∷ []) start
    ≡ ok after_fill
unfolding ingest_page ingest_fill post_fill
page_ingested = rw fill_ingested refl

page_repeated :
    ingest_page false same_decimal default_rate 9 (fill buy (some 3_000_000) ∷ []) after_fill
    ≡ ok after_fill
page_repeated =
    page_again_changes_nothing false same_decimal default_rate 5 9 (fill buy (some 3_000_000) ∷ [])
      start after_fill ((3_000_000, refl), tt) page_ingested

abbrev ingestor : Ingestor
ingestor = record { high_water_ts = some 2; db = db }

-- A poll that finds the fill, and one whose request fails.
polled_mark :
    2
    ≤ or_default
        (poll_loop false same_decimal default_rate seconds
          ((5, ok (fill buy (some 3_000_000) ∷ [], none) ∷ []) ∷ (9, err api_error ∷ []) ∷ [])
          ingestor).high_water_ts
        0
polled_mark =
    poll_loop_mark false same_decimal default_rate seconds
      ((5, ok (fill buy (some 3_000_000) ∷ [], none) ∷ []) ∷ (9, err api_error ∷ []) ∷ []) ingestor

-- The held position is unknown to Kalshi, which has 5 contracts of NO in market 8.
abbrev mirrored : Work
mirrored = record {
  positions =
      record held_position { count = 0 }
      ∷ record {
        market_ticker = 8;
        side = no_side;
        count = 5;
        avg_price_dollars = dec 0 4;
        realized_pnl_dollars = dec 125 2;
        updated_at = 5;
      }
      ∷ [];
  discrepancies = missing_local 8 5 ∷ missing_remote 7 (yes_side, 30) ∷ [];
}

book_reconciled :
    reconcile_positions same_decimal 5 (remote_position ∷ []) (held_position ∷ []) ≡ ok mirrored
unfolding reconcile_positions settle_all settle realized_of remote_by_ticker put_remote find_remote
    target close_absent get_position put_position
book_reconciled = refl

book_mirrors : holding 8 mirrored.positions ≡ remote_holding 8 (remote_position ∷ [])
book_mirrors =
    reconciled_mirrors_kalshi same_decimal 5 (remote_position ∷ []) (held_position ∷ []) mirrored 8
      book_reconciled
