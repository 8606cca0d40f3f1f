-- ===== src/Pnl/Baseline.antt =====
-- Which snapshot kalshi_agent/safety/pnl.py takes for a baseline.
use kalshi_agent.Base.{ℕ, ◌≤◌, Option, none, some, List, [], ◌∷◌, All, arith}
use kalshi_agent.Storage.{PnlDaily}
use kalshi_agent.Pnl.{later_row, latest_at_or_before}

-- What a search up to `cutoff` may return: no row in range, or the last of the rows in range.
abbrev pub IsLatest : ℕ → List PnlDaily → Option PnlDaily → Type 0
IsLatest cutoff rows none = All (λ r. ¬ (r.day ≤ cutoff)) rows
IsLatest cutoff rows (some best) =
    (best.day ≤ cutoff) × All (λ r. r.day ≤ cutoff → r.day ≤ best.day) rows

All-weaken :
    (a b cutoff : ℕ) (rows : List PnlDaily)
    → a ≤ b
    → All (λ r. r.day ≤ cutoff → r.day ≤ a) rows
    → All (λ r. r.day ≤ cutoff → r.day ≤ b) rows
All-weaken a b cutoff [] h all = tt
All-weaken a b cutoff (r ∷ rows) h (x, all) = (λ k. omega arith, All-weaken a b cutoff rows h all)

All-vacuous :
    (b cutoff : ℕ) (rows : List PnlDaily)
    → All (λ r. ¬ (r.day ≤ cutoff)) rows
    → All (λ r. r.day ≤ cutoff → r.day ≤ b) rows
All-vacuous b cutoff [] all = tt
All-vacuous b cutoff (r ∷ rows) (x, all) = (λ k. absurd (x k), All-vacuous b cutoff rows all)

later_row-IsLatest :
    (cutoff : ℕ) (r : PnlDaily) (rows : List PnlDaily) (best : Option PnlDaily)
    → IsLatest cutoff rows best
    → IsLatest cutoff (r ∷ rows) (later_row cutoff r best)
unfolding later_row
later_row-IsLatest cutoff r rows none h = ground (arith, All-vacuous r.day cutoff rows h)
later_row-IsLatest cutoff r rows (some best) h =
    ground (arith, All-weaken best.day r.day cutoff rows)

-- The baseline is the row of the latest day that is not after the cutoff, and there is none only
-- if every row is after it.
pub latest_at_or_before-IsLatest :
    (cutoff : ℕ) (rows : List PnlDaily) → IsLatest cutoff rows (latest_at_or_before cutoff rows)
unfolding latest_at_or_before
latest_at_or_before-IsLatest cutoff [] = tt
latest_at_or_before-IsLatest cutoff (r ∷ rows) =
    later_row-IsLatest cutoff r rows (latest_at_or_before cutoff rows)
      (latest_at_or_before-IsLatest cutoff rows)
