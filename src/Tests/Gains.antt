-- ===== src/Tests/Gains.antt =====
-- The snapshot of the daily gain at a concrete book.
use kalshi_agent.Base.{ℕ, suc, ◌*◌, ◌≡◌, List, [], ◌∷◌, map}
use kalshi_agent.Decimal.{Decimal, of_ℕ, sum_D, ◌-D◌}
use kalshi_agent.Storage.{Db}
use kalshi_agent.Pnl.{realized_pnl_since, cumulative_realized_pnl}
use kalshi_agent.Daily.{snapshot_daily_pnl}
use kalshi_agent.Daily.Snapshot.{daily_gain_since_snapshot}
use kalshi_agent.Tests.Samples.{same_decimal, db, held_position}

abbrev exact_sum : List Decimal → Decimal
exact_sum ds = sum_D (of_ℕ 0) ds

abbrev midnights : ℕ → ℕ × ℕ
midnights day = (day * 86_400_000_000, suc day * 86_400_000_000)

-- A book with a gain of 3 dollars at the snapshot of day 20.
abbrev gained : Db
gained = record db {
  ledger = record (db.ledger) {
    positions = record held_position { realized_pnl_dollars = of_ℕ 3 } ∷ [];
  };
}

gain_since_midnight :
    let db' = snapshot_daily_pnl same_decimal exact_sum midnights 20 5 gained in
    realized_pnl_since 20 (held_position ∷ []) db'.pnl_daily
    ≡ cumulative_realized_pnl (held_position ∷ [])
      -D exact_sum (map (λ p. p.realized_pnl_dollars) gained.ledger.positions)
gain_since_midnight =
    daily_gain_since_snapshot same_decimal exact_sum midnights 20 5 gained (held_position ∷ [])
