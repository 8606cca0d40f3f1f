-- ===== src/Scheduler/Tick.antt =====
-- The decisions that a strategy tick of kalshi_agent/scheduler.py leaves.
use kalshi_agent.Base.{◌+◌, ◌≤◌, String, List, [], ◌∷◌, length, arith}
use kalshi_agent.Config.{Config}
use kalshi_agent.Execution.{Agent, handle_signal}
use kalshi_agent.Execution.Stages.{one_decision_per_signal}
use kalshi_agent.Scheduler.{Handling, handle_all}

module _ (lower : String → String) (cfg : Config) where
  -- A tick leaves at most one decision for each of its signals, whichever of them raise, and loses
  -- none of the decisions before.
  handle_all_decisions :
      (signals : List Handling) (a : Agent)
      → let a' = handle_all lower cfg signals a in
        (length a.db.decisions ≤ length a'.db.decisions)
        × (length a'.db.decisions ≤ length a.db.decisions + length signals)
  unfolding handle_all
  handle_all_decisions [] a = (omega arith, omega arith)
  handle_all_decisions ((s, inputs) ∷ signals) a =
      let a' = (handle_signal lower cfg inputs s a).agent in
      let (_, low, high) = one_decision_per_signal lower cfg inputs s a in
      let (more, bound) = handle_all_decisions signals a' in (omega arith, omega arith)
