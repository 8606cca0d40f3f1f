-- ===== src/Pnl.antt =====
-- kalshi_agent/safety/pnl.py
pub mod Baseline
use kalshi_agent.Base.{ℕ, Option, none, some, List, [], ◌∷◌, map, ◌&&◌, leb, if◌then◌else◌}
use kalshi_agent.Decimal.{Decimal, of_ℕ, sum_D, ◌-D◌}
use kalshi_agent.Storage.{Position, PnlDaily}

unfoldable pub cumulative_realized_pnl : List Position → Decimal
cumulative_realized_pnl ps = sum_D (of_ℕ 0) (map (λ p. p.realized_pnl_dollars) ps)

-- The later of a row, if its day is in range, and the best of the rows behind it.
unfoldable pub later_row : ℕ → PnlDaily → Option PnlDaily → Option PnlDaily
later_row cutoff row none = if leb row.day cutoff then some row else none
later_row cutoff row (some best) =
    if leb row.day cutoff && leb best.day row.day then some row else some best

-- `where(day <= cutoff).order_by(day.desc()).limit(1)`
unfoldable pub latest_at_or_before : ℕ → List PnlDaily → Option PnlDaily
latest_at_or_before cutoff [] = none
latest_at_or_before cutoff (row ∷ rows) = later_row cutoff row (latest_at_or_before cutoff rows)

abbrev realized_or_zero : Option PnlDaily → Decimal
realized_or_zero none = of_ℕ 0
realized_or_zero (some row) = row.realized_pnl

-- `cutoff_day` is the day of the cutoff in the display zone.
unfoldable pub snapshot_baseline_at_or_before : ℕ → List PnlDaily → Decimal
snapshot_baseline_at_or_before cutoff_day rows =
    realized_or_zero (latest_at_or_before cutoff_day rows)

unfoldable pub realized_pnl_since : ℕ → List Position → List PnlDaily → Decimal
realized_pnl_since cutoff_day positions rows =
    cumulative_realized_pnl positions -D snapshot_baseline_at_or_before cutoff_day rows
