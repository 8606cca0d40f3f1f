-- ===== src/Daily.antt =====
-- The daily figures of kalshi_agent/positions.py. `midnights` gives the first instants of a local day
-- and of the next one; `float_of` is what a float column gives back, and `float_sum` the sum that
-- Python makes of floats.
pub mod Snapshot
use kalshi_agent.Base.{
  ℕ, Bool, true, false, not, ◌&&◌, Option, none, some, List, [], ◌∷◌, length, select, map, leb, ltb,
  ◌==◌, if◌then◌else◌, or_default,
}
use kalshi_agent.Decimal.{Decimal, of_ℕ, sum_D}
use kalshi_agent.Storage.{Ledger, Position, Fill, PnlDaily, Db}
use kalshi_agent.Risk.{position_exposure}

-- `daily_realized_pnl`: the gain is always 0, and then the fees and the number of fills.
unfoldable pub daily_realized_pnl : ℕ × ℕ → List Fill → Decimal × (Decimal × ℕ)
daily_realized_pnl (start, end) rows =
    let fills = select (λ f. leb start f.created_at && ltb f.created_at end) rows in
    (of_ℕ 0, (sum_D (of_ℕ 0) (map (λ f. f.fee_dollars) fills), length fills))

-- `session.merge(row)`
unfoldable pub put_daily : PnlDaily → List PnlDaily → List PnlDaily
put_daily row [] = row ∷ []
put_daily row (r ∷ rows) = if r.day == row.day then row ∷ rows else r ∷ put_daily row rows

unfoldable pub snapshot_daily_pnl :
    (Decimal → Decimal) → (List Decimal → Decimal) → (ℕ → ℕ × ℕ) → ℕ → ℕ → Db → Db
snapshot_daily_pnl float_of float_sum midnights day now db =
    let figures = daily_realized_pnl (midnights day) db.ledger.fills in
    let row : PnlDaily = record {
      day = day;
      realized_pnl = float_sum (map (λ p. p.realized_pnl_dollars) db.ledger.positions);
      fees = float_of figures.1.0;
      trade_count = figures.1.1;
      updated_at = now;
    } in
    record db { pnl_daily = put_daily row db.pnl_daily }

unfoldable pub open_exposure_dollars : List Position → Decimal
open_exposure_dollars ps =
    sum_D (of_ℕ 0) (map position_exposure (select (λ p. not (p.count == 0)) ps))
