-- ===== src/Daily/Snapshot.antt =====
-- The daily gain of kalshi_agent/safety/pnl.py behind the snapshot of kalshi_agent/positions.py that
-- the scheduler takes at midnight.
use kalshi_agent.Base.{
  ℕ, ◌≤◌, ◌≡◌, refl, Option, none, some, List, [], ◌∷◌, map, arith, inl, inr, Option-cases,
}
use kalshi_agent.Decimal.{Decimal, ◌-D◌}
use kalshi_agent.Storage.{Db, PnlDaily, Position}
use kalshi_agent.Pnl.{
  later_row, latest_at_or_before, snapshot_baseline_at_or_before, realized_pnl_since,
  cumulative_realized_pnl,
}
use kalshi_agent.Pnl.Baseline.{IsLatest, latest_at_or_before-IsLatest}
use kalshi_agent.Daily.{put_daily, snapshot_daily_pnl}

IsLatest-day :
    (cutoff : ℕ) (rows : List PnlDaily) (o : Option PnlDaily) (best : PnlDaily)
    → IsLatest cutoff rows o
    → o ≡ some best
    → best.day ≤ cutoff
IsLatest-day cutoff rows none best h e = absurd (ground arith)
IsLatest-day cutoff rows (some b) best (early, _) e = ground arith

latest-put_daily :
    (row : PnlDaily) (rows : List PnlDaily)
    → latest_at_or_before row.day (put_daily row rows) ≡ some row
unfolding latest_at_or_before put_daily later_row
latest-put_daily row [] = ground arith
latest-put_daily row (r ∷ rows) = elim (Option-cases (latest_at_or_before row.day rows)) [
  | inl q ↦ ground (arith, latest-put_daily row rows)
  | inr (best, q) ↦ ground (
    arith,
    latest-put_daily row rows,
    IsLatest-day row.day rows (latest_at_or_before row.day rows) best
        (latest_at_or_before-IsLatest row.day rows) q,
  )
]

-- Behind the snapshot of a day, and until the next one, the gain that the limit of the day is tested
-- against is the cumulative gain of the present book less that of the book at the snapshot, whatever
-- rows the table had before.
pub daily_gain_since_snapshot :
    (float_of : Decimal → Decimal) (float_sum : List Decimal → Decimal) (midnights : ℕ → ℕ × ℕ)
    (day now : ℕ) (db : Db) (present : List Position)
    → let db' = snapshot_daily_pnl float_of float_sum midnights day now db in
      realized_pnl_since day present db'.pnl_daily
      ≡ cumulative_realized_pnl present
        -D float_sum (map (λ p. p.realized_pnl_dollars) db.ledger.positions)
unfolding snapshot_daily_pnl realized_pnl_since snapshot_baseline_at_or_before
daily_gain_since_snapshot float_of float_sum midnights day now db present = rw latest-put_daily refl
