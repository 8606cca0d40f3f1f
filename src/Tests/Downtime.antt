-- ===== src/Tests/Downtime.antt =====
-- A reconciliation and the catch-up behind it at a concrete book.
use kalshi_agent.Base.{◌≡◌, refl, true, none, some, [], ◌∷◌}
use kalshi_agent.Base.Int.{negsuc, ◌+ℤ◌}
use kalshi_agent.Side.{no_side, buy}
use kalshi_agent.Decimal.{eqb_D, Decimal, dec, ◌+D◌, div, quantize}
use kalshi_agent.Result.{ok}
use kalshi_agent.Wire.{KalshiFill, absent, decimal, price_decimal_to_str, price_str_to_decimal}
use kalshi_agent.Storage.{Ledger, Position, get_position, put_position}
use kalshi_agent.Fees.{default_rate, total_fee_dollars}
use kalshi_agent.Positions.{fill_price, buy_position, move_position, apply_new_fill}
use kalshi_agent.Positions.Book.{holding, signed_count}
use kalshi_agent.Fills.{post_fill, seconds, Ingestor}
use kalshi_agent.Reconcile.{
  Work, missing_local, reconcile_positions, settle_all, settle, realized_of, remote_by_ticker,
  put_remote, find_remote, target, close_absent,
}
use kalshi_agent.Reconcile.Mirror.{remote_holding}
use kalshi_agent.Reconcile.Again.{second_reconciliation_idle}
use kalshi_agent.Scheduler.{tick_reconcile}
use kalshi_agent.Scheduler.Twice.{fill_on_top_of_mirror}
use kalshi_agent.Tests.Samples.{same_decimal, fill, db, remote_position}

-- The 5 contracts of NO that Kalshi has were bought while the program was down.
abbrev missed : KalshiFill
missed = record (fill buy (some 3_000_000)) {
  ticker = 8;
  side = no_side;
  count = 5;
  yes_price_dollars = absent;
  no_price_dollars = decimal (dec 4000 4);
}

abbrev adopted : Position
adopted = record {
  market_ticker = 8;
  side = no_side;
  count = 5;
  avg_price_dollars = dec 0 4;
  realized_pnl_dollars = dec 125 2;
  updated_at = 5;
}

abbrev mirrored : Work
mirrored = record { positions = adopted ∷ []; discrepancies = missing_local 8 5 ∷ [] }

book_adopted : reconcile_positions same_decimal 5 (remote_position ∷ []) [] ≡ ok mirrored
unfolding reconcile_positions settle_all settle realized_of remote_by_ticker put_remote find_remote
    target close_absent get_position put_position
book_adopted = refl

abbrev doubled : Ledger
doubled = record {
  positions =
      record adopted {
        count = 10;
        avg_price_dollars = dec 2000 4;
        realized_pnl_dollars = dec 115 2;
      }
      ∷ [];
  fills =
      record {
        created_at = 3_000_000;
        kalshi_order_id = 41;
        market_ticker = 8;
        side = no_side;
        count = 5;
        price_dollars = dec 4000 4;
        fee_dollars = dec 1000 4;
        is_taker = true;
      }
      ∷ [];
}

abbrev fees_paid : Decimal
fees_paid = record { coef = negsuc 9; places = 2 }

missed_applied :
    apply_new_fill same_decimal default_rate 5 missed
      (record { positions = adopted ∷ []; fills = [] })
    ≡ ok (fees_paid, doubled)
unfolding apply_new_fill fill_price price_str_to_decimal price_decimal_to_str quantize
    total_fee_dollars move_position buy_position get_position div ◌+D◌ put_position
missed_applied = refl

abbrev restarted : Ingestor
restarted = record { high_water_ts = none; db = db }

missed_posted : post_fill true missed fees_paid ≡ ok tt
unfolding post_fill eqb_D price_str_to_decimal
missed_posted = refl

missed_counted_twice :
    holding 8
      (tick_reconcile true same_decimal seconds default_rate 5
        (ok (remote_position ∷ []))
        (ok (missed ∷ [], none) ∷ [])
        restarted).db.ledger.positions
    ≡ remote_holding 8 (remote_position ∷ []) +ℤ signed_count no_side 5
missed_counted_twice =
    fill_on_top_of_mirror true same_decimal seconds default_rate 5 (remote_position ∷ []) missed []
      restarted mirrored fees_paid doubled book_adopted refl refl missed_applied missed_posted

adopted_stays :
    reconcile_positions same_decimal 9 (remote_position ∷ []) mirrored.positions
    ≡ ok (record { positions = mirrored.positions; discrepancies = [] })
adopted_stays =
    second_reconciliation_idle same_decimal 5 9 (remote_position ∷ []) [] mirrored book_adopted
