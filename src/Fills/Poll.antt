-- ===== src/Fills/Poll.antt =====
-- `poll_loop` of kalshi_agent/fills.py, on the time and the answers that each of its rounds reads.
use kalshi_agent.Base.{ℕ, ◌≤◌, some, List, [], ◌∷◌, or_default, arith, Bool}
use kalshi_agent.Decimal.{Decimal}
use kalshi_agent.Fills.{Answer, Ingestor, load_high_water, fetch_and_apply}
use kalshi_agent.Fills.HighWater.{fetch_pages_mark}

-- The mark is read from the table of fills where there is none yet.
unfoldable pub load_mark : (ℕ → ℕ) → Ingestor → Ingestor
load_mark naive_seconds s = record s {
  high_water_ts =
      some (or_default s.high_water_ts (load_high_water naive_seconds s.db.ledger.fills));
}

module _ (posts : Bool) (float_of : Decimal → Decimal) (rate : Decimal) where
  -- A round that raises is logged, and the next one follows.
  unfoldable pub poll_rounds : List (ℕ × List Answer) → Ingestor → Ingestor
  poll_rounds [] s = s
  poll_rounds ((now, answers) ∷ rounds) s =
      poll_rounds rounds (fetch_and_apply posts float_of rate now answers s).1

  unfoldable pub poll_loop : (ℕ → ℕ) → List (ℕ × List Answer) → Ingestor → Ingestor
  poll_loop naive_seconds rounds s = poll_rounds rounds (load_mark naive_seconds s)

  round_mark :
      (now : ℕ) (answers : List Answer) (s : Ingestor)
      → or_default s.high_water_ts 0
        ≤ or_default (fetch_and_apply posts float_of rate now answers s).1.high_water_ts 0
  unfolding fetch_and_apply
  round_mark now answers s = (fetch_pages_mark posts float_of rate now s.high_water_ts answers _).0

  poll_rounds_mark :
      (rounds : List (ℕ × List Answer)) (s : Ingestor)
      → or_default s.high_water_ts 0 ≤ or_default (poll_rounds rounds s).high_water_ts 0
  unfolding poll_rounds
  poll_rounds_mark [] s = omega arith
  poll_rounds_mark ((now, answers) ∷ rounds) s =
      let s' = (fetch_and_apply posts float_of rate now answers s).1 in
      omega (arith, round_mark now answers s, poll_rounds_mark rounds s')

  -- However many rounds the loop runs and whatever Kalshi answers, the mark that a later poll starts
  -- from does not fall below the mark that was set or, where there was none, the second that
  -- the server reads from the newest fill in the table.
  pub poll_loop_mark :
      (naive_seconds : ℕ → ℕ) (rounds : List (ℕ × List Answer)) (s : Ingestor)
      → or_default s.high_water_ts (load_high_water naive_seconds s.db.ledger.fills)
        ≤ or_default (poll_loop naive_seconds rounds s).high_water_ts 0
  unfolding poll_loop load_mark
  poll_loop_mark naive_seconds rounds s = poll_rounds_mark rounds (load_mark naive_seconds s)
