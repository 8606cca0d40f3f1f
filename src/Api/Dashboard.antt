-- ===== src/Api/Dashboard.antt =====
-- kalshi_agent/api/routes/dashboard.py: the rows and the figures of the page. A float column gives
-- back decimals here, and `float_sum` and `float_times` are what Python makes of a
-- sum and of a product of floats; the layout is left out.
pub mod Today
pub mod Table
use kalshi_agent.Base.{
  ℕ, Bool, true, false, not, Option, none, some, List, [], ◌∷◌, map, length, select, leb, ◌==◌,
  or_default, if◌then◌else◌,
}
use kalshi_agent.Base.Int.{pos}
use kalshi_agent.Decimal.{Decimal}
use kalshi_agent.Storage.{Db, Position, Order, Decision, PnlDaily}
use kalshi_agent.Api.Rows.{limit, sort}
use kalshi_agent.Api.Observer.{newer_order, newer_decision}

-- `order_by(day.desc())`
abbrev pub later_day : PnlDaily → PnlDaily → Bool
later_day a b = leb b.day a.day

abbrev pub onto : {A : Type 0} → List A → List A → List A
onto [] ys = ys
onto (x ∷ xs) ys = onto xs (x ∷ ys)

-- `list(reversed(...))`
abbrev pub reversed : {A : Type 0} → List A → List A
reversed xs = onto xs []

-- The last 30 days, the oldest first.
unfoldable pub daily_rows : Db → List PnlDaily
unfolding sort
daily_rows db = reversed (limit (pos 30) (sort later_day db.pnl_daily))

abbrev pub row_of : ℕ → List PnlDaily → Option PnlDaily
row_of day [] = none
row_of day (r ∷ rows) = if r.day == day then some r else row_of day rows

abbrev gain_or : Decimal → Option PnlDaily → Decimal
gain_or total none = total
gain_or total (some r) = r.realized_pnl

-- `today_pnl`
unfoldable pub today_pnl : Decimal → ℕ → List PnlDaily → Decimal
today_pnl realized_total today daily = gain_or realized_total (row_of today daily)

pub record Page : Type 0 where
  pub positions : List Position
  pub orders : List Order
  pub decisions : List Decision
  pub daily : List PnlDaily
  pub realized_pnl_total : Decimal
  pub today_pnl : Decimal
  pub open_count : ℕ
  pub open_exposure : Decimal
  pub engaged : Bool

-- `dashboard`
unfoldable pub page : (List Decimal → Decimal) → (Decimal → ℕ → Decimal) → ℕ → Bool → Db → Page
unfolding daily_rows today_pnl sort
page float_sum float_times today engaged db =
    let held = select (λ p. not (p.count == 0)) db.ledger.positions in
    let total = float_sum (map (λ p. p.realized_pnl_dollars) db.ledger.positions) in
    record {
      positions = held;
      orders = limit (pos 15) (sort newer_order db.orders);
      decisions = limit (pos 15) (sort newer_decision db.decisions);
      daily = daily_rows db;
      realized_pnl_total = total;
      today_pnl = today_pnl total today (daily_rows db);
      open_count = length held;
      open_exposure = float_sum (map (λ p. float_times p.avg_price_dollars p.count) held);
      engaged = engaged;
    }
