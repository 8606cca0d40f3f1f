-- ===== src/Api/Observer/Views.antt =====
-- What the queries of kalshi_agent/api/routes/observer.py show.
use kalshi_agent.Base.{
  ℕ, ◌-◌, ◌≤◌, ◌<◌, ◌≡◌, ◌∙◌, refl, ap, min, true, false, Option, none, some, List, ◌++◌, map,
  length, select, arith, leb, ltb,
}
use kalshi_agent.Base.Int.{pos, negsuc}
use kalshi_agent.Storage.{Db, Order, Decision, PnlDaily}
use kalshi_agent.Api.Rows.{take, sort}
use kalshi_agent.Api.Rows.Sorted.{
  IsSorted, SameRows, sort-IsSorted, sort-SameRows, length-sort, left, take-left, length-take,
}
use kalshi_agent.Api.Observer.{newer_order, earlier_day, decision_of, trades, equity_curve}

-- An order with its decision.
abbrev pub shown : Db → Order → Order × Option Decision
shown db o = (o, decision_of db o.decision_id)

-- All the orders of the tables, the newest first.
abbrev pub AreNewest : Db → List Order → Type 0
AreNewest db rows = IsSorted newer_order rows × SameRows rows db.orders

orders-IsSorted : (db : Db) → IsSorted newer_order (sort newer_order db.orders)
orders-IsSorted db =
    sort-IsSorted newer_order (λ a b h. ground arith) (λ a b c h k. ground arith) db.orders

-- The trades that are shown for a limit of `n` are the newest `n` orders with their decisions,
-- newest first, or all where there are fewer; a limit above 200 is refused, and a negative one
-- shows all the orders, however many there are.
pub trades_lem :
    (db : Db) (n : ℕ)
    → (n ≤ 200
        → (recent : List Order) × (older : List Order) × (trades (pos n) db
            ≡ some (map (shown db) recent))
          × (length recent ≡ min n (length db.orders))
          × AreNewest db (recent ++ older))
      × (200 < n → trades (pos n) db ≡ none)
      × (recent : List Order) × (trades (negsuc n) db ≡ some (map (shown db) recent))
      × (length recent ≡ length db.orders)
      × AreNewest db recent
unfolding trades
trades_lem db n =
    let all = sort newer_order db.orders in
    let together = take-left n all in
    (
      λ h. (
        take n all,
        left n all,
        (let fits : ltb 200 n ≡ false = ground arith in rw fits refl),
        length-take n all ∙ ap (min n) (length-sort newer_order db.orders),
        (rw together (orders-IsSorted db), rw together (sort-SameRows newer_order db.orders)),
      ),
      λ h. (let over : ltb 200 n ≡ true = ground arith in rw over refl),
      all,
      refl,
      length-sort newer_order db.orders,
      (orders-IsSorted db, sort-SameRows newer_order db.orders),
    )

-- For at most 365 days the curve has the rows from the cutoff on, each once, in the order of their
-- days; a wider range is refused.
pub equity_curve_lem :
    (utc_day n : ℕ) (db : Db)
    → (n ≤ 365
        → (rows : List PnlDaily) × (equity_curve utc_day (pos n) db ≡ some rows)
          × IsSorted earlier_day rows
          × SameRows rows (select (λ r. leb (utc_day - n) r.day) db.pnl_daily))
      × (365 < n → equity_curve utc_day (pos n) db ≡ none)
unfolding equity_curve
equity_curve_lem utc_day n db =
    let since = select (λ r. leb (utc_day - n) r.day) db.pnl_daily in
    (
      λ h. (
        sort earlier_day since,
        (let fits : ltb 365 n ≡ false = ground arith in rw fits refl),
        sort-IsSorted earlier_day (λ a b h. ground arith) (λ a b c h k. ground arith) since,
        sort-SameRows earlier_day since,
      ),
      λ h. (let over : ltb 365 n ≡ true = ground arith in rw over refl),
    )
