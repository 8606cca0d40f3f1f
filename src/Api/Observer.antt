-- ===== src/Api/Observer.antt =====
-- kalshi_agent/api/routes/observer.py: the queries, on the tables. `day_of` gives the local day of
-- an instant, `midnight` the first instant of a local day, and `utc_day` the day in UTC that the
-- equity curve is cut at; dates as texts and the rationale are left out. Of rows with the same time
-- the one that was inserted first stands first.
pub mod Views
use kalshi_agent.Base.{
  ℕ, zero, suc, ◌+◌, ◌-◌, ◌*◌, Bool, true, false, Option, none, some, String, List, [], ◌∷◌, map,
  length, select, leb, ltb, ◌==◌, if◌then◌else◌,
}
use kalshi_agent.Base.Int.{ℤ, pos, negsuc}
use kalshi_agent.Decimal.{Decimal, of_ℕ, sum_D}
use kalshi_agent.Side.{Side}
use kalshi_agent.Api.Rows.{limit, at_most, sort}
use kalshi_agent.Storage.{Db, Position, Fill, Order, Decision, PnlDaily, get_position}
use kalshi_agent.Pnl.{cumulative_realized_pnl, realized_pnl_since}

-- `order_by(created_at.desc())`
abbrev pub newer_order : Order → Order → Bool
newer_order a b = leb b.created_at a.created_at

abbrev pub newer_decision : Decision → Decision → Bool
newer_decision a b = leb b.created_at a.created_at

-- `order_by(day.asc())`
abbrev pub earlier_day : PnlDaily → PnlDaily → Bool
earlier_day a b = leb a.day b.day

unfoldable pub positions : Db → List Position
positions db = db.ledger.positions

-- `s.get(Decision, id)`
abbrev pub find_decision : ℕ → List Decision → Option Decision
find_decision id [] = none
find_decision id (d ∷ ds) = if d.id == id then some d else find_decision id ds

abbrev pub decision_of : Db → Option ℕ → Option Decision
decision_of db none = none
decision_of db (some id) = find_decision id db.decisions

unfoldable pub trades : ℤ → Db → Option (List (Order × Option Decision))
unfolding sort
trades n db =
    at_most 200 n
      (map (λ o. (o, decision_of db o.decision_id)) (limit n (sort newer_order db.orders)))

pub data Period : Type 0 where
  today week month all : Period

pub record Pnl : Type 0 where
  pub cutoff_utc : ℕ
  pub fees_dollars : Decimal
  pub trade_count : ℕ
  pub realized_pnl_dollars : Decimal

abbrev one_day : ℕ
one_day = 86_400 * 1_000_000

module _ (float_of : Decimal → Decimal) (day_of midnight : ℕ → ℕ) where
  unfoldable pub cutoff : Period → ℕ → ℕ
  cutoff today now = midnight (day_of now)
  cutoff week now = now - 7 * one_day
  cutoff month now = now - 30 * one_day
  cutoff all now = 0

  unfoldable pub realized : Period → ℕ → Db → Decimal
  realized all since db = cumulative_realized_pnl db.ledger.positions
  realized _ since db = realized_pnl_since (day_of since) db.ledger.positions db.pnl_daily

  unfoldable pub pnl : Period → ℕ → Db → Pnl
  unfolding cutoff realized
  pnl period now db =
      let since = cutoff period now in
      let fills = select (λ f. leb since f.created_at) db.ledger.fills in
      record {
        cutoff_utc = since;
        fees_dollars = float_of (sum_D (of_ℕ 0) (map (λ f. f.fee_dollars) fills));
        trade_count = length fills;
        realized_pnl_dollars = float_of (realized period since db);
      }

-- Days before the present one; a negative number of days lies in the future.
abbrev pub days_before : ℕ → ℤ → ℕ
days_before day (pos n) = day - n
days_before day (negsuc n) = day + suc n

unfoldable pub equity_curve : ℕ → ℤ → Db → Option (List PnlDaily)
unfolding sort
equity_curve utc_day days db =
    at_most 365 days
      (sort earlier_day (select (λ r. leb (days_before utc_day days) r.day) db.pnl_daily))

pub record MarketView : Type 0 where
  pub ticker : ℕ
  pub position : Option (Side × ℕ × Decimal)
  pub last_decision : Option (Decimal × ℕ)

abbrev pub first : List Decision → Option (Decimal × ℕ)
first [] = none
first (d ∷ _) = some (d.model_probability, d.created_at)

abbrev pub shown_position : Option Position → Option (Side × ℕ × Decimal)
shown_position none = none
shown_position (some p) = some (p.side, p.count, p.avg_price_dollars)

unfoldable pub market : ℕ → Db → MarketView
unfolding sort
market t db = record {
  ticker = t;
  position = shown_position (get_position t db.ledger.positions);
  last_decision = first (sort newer_decision (select (λ d. d.market_ticker == t) db.decisions));
}
