-- ===== src/Scheduler.antt =====
-- The jobs of kalshi_agent/scheduler.py that change state. Exceptions of a job are logged there and
-- end it; triggers are APScheduler's, and summaries are posts.
pub mod Tick
pub mod Exposure
pub mod Summary
pub mod Twice
use kalshi_agent.Base.{ℕ, Bool, true, false, Option, none, some, String, List, [], ◌∷◌}
use kalshi_agent.Decimal.{Decimal}
use kalshi_agent.Result.{Exn, Result, ok, err}
use kalshi_agent.Wire.{KalshiPosition}
use kalshi_agent.Config.{Config}
use kalshi_agent.Storage.{Db}
use kalshi_agent.Signal.{Signal}
use kalshi_agent.Fills.{Ingestor, Outcome, waiting, raised, Answer, catch_up}
use kalshi_agent.Reconcile.{Report, reconcile}
use kalshi_agent.Execution.{Agent, Inputs, Handled, handle_signal}

-- A signal with what the handling of it reads.
abbrev pub Handling : Type 0
Handling = Signal × Inputs

-- The loop of `_tick_strategy`: a signal that raises does not stop the others.
unfoldable pub handle_all : (String → String) → Config → List Handling → Agent → Agent
handle_all lower cfg [] a = a
handle_all lower cfg ((s, inputs) ∷ signals) a =
    handle_all lower cfg signals (handle_signal lower cfg inputs s a).agent

unfoldable pub tick_strategy : (String → String) → Config → Result (List Handling) → Agent → Agent
tick_strategy lower cfg (err e) a = a
tick_strategy lower cfg (ok signals) a = handle_all lower cfg signals a

-- `_tick_reconcile`: the catch-up follows a reconciliation that has not raised.
unfoldable pub after_reconcile :
    Bool
    → (Decimal → Decimal)
    → (ℕ → ℕ)
    → Decimal
    → ℕ
    → List Answer
    → Option ℕ
    → Result Report × Db
    → Ingestor
after_reconcile posts float_of naive_seconds rate now answers high (err e, db) = record {
  high_water_ts = high;
  db = db;
}
after_reconcile posts float_of naive_seconds rate now answers high (ok _, db) =
    (catch_up posts float_of rate now naive_seconds answers
      (record { high_water_ts = high; db = db })).1

unfoldable pub tick_reconcile :
    Bool
    → (Decimal → Decimal)
    → (ℕ → ℕ)
    → Decimal
    → ℕ
    → Result (List KalshiPosition)
    → List Answer
    → Ingestor
    → Ingestor
tick_reconcile posts float_of naive_seconds rate now remote answers s =
    after_reconcile posts float_of naive_seconds rate now answers s.high_water_ts
      (reconcile float_of now remote s.db)
