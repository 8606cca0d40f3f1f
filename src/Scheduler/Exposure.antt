-- ===== src/Scheduler/Exposure.antt =====
-- The exposure that the signals of one strategy tick are checked against, in
-- kalshi_agent/scheduler.py.
use kalshi_agent.Base.{◌≡◌, ◌∙◌, refl, ap, String, List, [], ◌∷◌, ◌++◌}
use kalshi_agent.Result.{ok}
use kalshi_agent.Config.{Config}
use kalshi_agent.Risk.{total_exposure}
use kalshi_agent.Execution.{Agent, handle_signal, books_of}
use kalshi_agent.Execution.Unfilled.{books-handle_signal}
use kalshi_agent.Scheduler.{Handling, handle_all, tick_strategy}

module _ (lower : String → String) (cfg : Config) where
  books-handle_all :
      (signals : List Handling) (a : Agent)
      → books_of (handle_all lower cfg signals a).db ≡ books_of a.db
  unfolding handle_all
  books-handle_all [] a = refl
  books-handle_all ((s, inputs) ∷ signals) a =
      books-handle_all signals (handle_signal lower cfg inputs s a).agent
      ∙ books-handle_signal lower cfg inputs s a

  tick_in_order :
      (first rest : List Handling) (a : Agent)
      → handle_all lower cfg (first ++ rest) a
        ≡ handle_all lower cfg rest (handle_all lower cfg first a)
  unfolding handle_all
  tick_in_order [] rest a = refl
  tick_in_order ((s, inputs) ∷ first) rest a =
      tick_in_order first rest (handle_signal lower cfg inputs s a).agent

  -- In a tick into which no fill comes, every signal is checked against the books, and so the
  -- exposure, from before the tick, however many orders the signals ahead of it have sent.
  pub tick_checks_first_books :
      (first rest : List Handling) (a : Agent)
      → let ahead = tick_strategy lower cfg (ok first) a in
        (tick_strategy lower cfg (ok (first ++ rest)) a ≡ tick_strategy lower cfg (ok rest) ahead)
        × (books_of ahead.db ≡ books_of a.db)
        × (total_exposure ahead.db.ledger.positions ≡ total_exposure a.db.ledger.positions)
  unfolding tick_strategy
  tick_checks_first_books first rest a =
      let same = books-handle_all first a in
      (tick_in_order first rest a, same, ap (λ b. total_exposure b.positions) same)
