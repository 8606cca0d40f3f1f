-- ===== src/Reconcile.antt =====
-- kalshi_agent/safety/reconciliation.py: the local positions are made those of Kalshi. The lock
-- is the caller's; logs and the Discord post are left out. Tickers are a primary key, so the row
-- that the loop finds in the table is the one that its snapshot `local` holds.
pub mod Mirror
pub mod Settled
pub mod Again
use kalshi_agent.Base.{
  ℕ, zero, suc, Bool, true, false, not, ◌&&◌, ◌||◌, Option, none, some, List, [], ◌∷◌, ◌++◌, length,
  is_some, ◌==◌, if◌then◌else◌,
}
use kalshi_agent.Base.Int.{ℤ, pos, negsuc}
use kalshi_agent.Side.{Side, yes_side, no_side, same_side}
use kalshi_agent.Decimal.{Decimal, dec, of_ℕ}
use kalshi_agent.Result.{Exn, Result, ok, err, value_error, ◌>>=◌}
use kalshi_agent.Wire.{KalshiPosition, PriceText, absent, malformed, decimal}
use kalshi_agent.Storage.{
  Ledger, Db, Level, Position, get_position, put_position, add_event, reconciliation_event, info,
  warning,
}

pub data Discrepancy : Type 0 where
  missing_local : ℕ → ℕ → Discrepancy
  mismatch : ℕ → Side × ℕ → Side × ℕ → Discrepancy
  missing_remote : ℕ → Side × ℕ → Discrepancy

-- `{p.ticker: p for p in remote}`: a later entry replaces an earlier one.
unfoldable pub put_remote : KalshiPosition → List KalshiPosition → List KalshiPosition
put_remote r [] = r ∷ []
put_remote r (q ∷ qs) = if q.ticker == r.ticker then r ∷ qs else q ∷ put_remote r qs

unfoldable pub remote_by_ticker : List KalshiPosition → List KalshiPosition → List KalshiPosition
remote_by_ticker acc [] = acc
remote_by_ticker acc (r ∷ rs) = remote_by_ticker (put_remote r acc) rs

unfoldable pub find_remote : ℕ → List KalshiPosition → Option KalshiPosition
find_remote t [] = none
find_remote t (r ∷ rs) = if r.ticker == t then some r else find_remote t rs

-- The side and the count of a signed position.
unfoldable pub target : ℤ → Side × ℕ
target (pos n) = (yes_side, n)
target (negsuc n) = (no_side, suc n)

abbrev pub is_given : PriceText → Bool
is_given absent = false
is_given malformed = true
is_given (decimal _) = true

-- What one entry of the remote book does to the rows and to the list of discrepancies.
pub record Work : Type 0 where
  pub positions : List Position
  pub discrepancies : List Discrepancy

abbrev pub adopted : KalshiPosition → Side × ℕ → Decimal → ℕ → Position
adopted r goal realized now = record {
  market_ticker = r.ticker;
  side = goal.0;
  count = goal.1;
  avg_price_dollars = dec 0 4;
  realized_pnl_dollars = realized;
  updated_at = now;
}

abbrev pub corrected : KalshiPosition → Side × ℕ → Decimal → Position → Position
corrected r goal realized p = record p {
  side = goal.0;
  count = goal.1;
  realized_pnl_dollars =
      if is_given r.realized_pnl_dollars then realized else p.realized_pnl_dollars;
}

unfoldable pub settle : KalshiPosition → Decimal → ℕ → Option Position → Work → Work
settle r realized now none w =
    let goal = target r.position in
    record {
      positions = put_position (adopted r goal realized now) w.positions;
      discrepancies = w.discrepancies ++ missing_local r.ticker goal.1 ∷ [];
    }
settle r realized now (some p) w =
    let goal = target r.position in
    if not (p.count == goal.1) || not (same_side p.side goal.0)
    then record {
      positions = put_position (corrected r goal realized p) w.positions;
      discrepancies = w.discrepancies ++ mismatch r.ticker (p.side, p.count) goal ∷ [];
    }
    else w

-- Local rows that Kalshi does not have are closed.
unfoldable pub close_absent : List KalshiPosition → List Position → Work
close_absent remote [] = record { positions = []; discrepancies = [] }
close_absent remote (p ∷ ps) =
    let w = close_absent remote ps in
    if not (is_some (find_remote p.market_ticker remote)) && not (p.count == 0)
    then record {
      positions = record p { count = 0 } ∷ w.positions;
      discrepancies = missing_remote p.market_ticker (p.side, p.count) ∷ w.discrepancies;
    }
    else record w { positions = p ∷ w.positions }

pub data Report : Type 0 where
  fetch_failed : Exn → Report
  reconciled : List Discrepancy → Report

module _ (float_of : Decimal → Decimal) where
  -- `float(realized) if realized else 0.0`
  unfoldable pub realized_of : PriceText → Result Decimal
  realized_of absent = ok (of_ℕ 0)
  realized_of malformed = err value_error
  realized_of (decimal d) = ok (float_of d)

  unfoldable pub settle_all : ℕ → List KalshiPosition → Work → Result Work
  settle_all now [] w = ok w
  settle_all now (r ∷ rs) w = realized_of r.realized_pnl_dollars >>= λ realized.
      settle_all now rs (settle r realized now (get_position r.ticker w.positions) w)

  unfoldable pub reconcile_positions : ℕ → List KalshiPosition → List Position → Result Work
  reconcile_positions now remote ps =
      let book = remote_by_ticker [] remote in
      settle_all now book (record { positions = ps; discrepancies = [] }) >>= λ w.
      let closed = close_absent book w.positions in
      ok (record closed { discrepancies = w.discrepancies ++ closed.discrepancies })

  abbrev event_level : List Discrepancy → Level
  event_level [] = info
  event_level (_ ∷ _) = warning

  -- `reconcile`, on the answer of `list_positions`. An exception behind the fetch leaves the
  -- session uncommitted.
  unfoldable pub reconcile : ℕ → Result (List KalshiPosition) → Db → Result Report × Db
  reconcile now (err e) db = (ok (fetch_failed e), db)
  reconcile now (ok remote) db = elim (reconcile_positions now remote db.ledger.positions) [
    | err e ↦ (err e, db)
    | ok w ↦ (
      ok (reconciled w.discrepancies),
      add_event (reconciliation_event (length w.discrepancies)) (event_level w.discrepancies)
          (record db { ledger = record (db.ledger) { positions = w.positions } }),
    )
  ]
