-- ===== src/Lib.antt =====
-- kalshi-agent trades binary contracts on Kalshi: strategies emit signals, the executor turns a
-- signal into an order after the risk monitor has let it through, fills and reconciliations keep the
-- book of positions, and a kill switch stops all trading. This library models that core and proves
-- what makes it correct. Paths below are from the root of the repository.
--
-- How the parts interact. `Execution.handle_signal` (src/kalshi_agent/execution.py) reads a market,
-- the bankroll (`Bankroll`) and the decision of `Risk.check_trade`, writes a decision and an order,
-- and sends the order; errors feed the error counter of the risk monitor, which may engage the kill
-- switch (`KillSwitch`). `Fills` pulls executions and applies them through `Positions.apply_fill`;
-- `Reconcile` overwrites the book with Kalshi's; both change the positions that `Risk` reads its
-- exposure from. `Halt` watches the kill switch and closes the book's live orders, and `Recovery`
-- settles the pending orders of a previous run. `Api.Server` halts, resumes and reconciles on
-- request. `System` puts them together: its state is the executor's with the mark of the fill
-- ingestor, the last state that the halt monitor saw and the orders sent, and each of its moves is
-- one task's, job's or request's turn.
--
-- Files and sources, all under src/kalshi_agent:
--   Base, Base/Tests, Base/Lists, Base/Int: shared names, Boolean tests, lists, the integers
--   Result: exceptions as values
--   Decimal: Python's decimal (28 digits, half-even), with exactness lemmas in Decimal/Exact and
--     the divisions that are defined in Decimal/Nonzero
--   Side, Wire: kalshi/types.py            Config: config.py, and the start of amain in __main__.py
--   Fees: safety/fees.py                   Storage: storage/models.py
--   KillSwitch: safety/kill_switch.py      Pnl: safety/pnl.py
--   Risk: safety/risk_monitor.py (Risk/Window the counters, Risk/Sizing the size of an order)
--   Positions, Daily: positions.py         Fills: fills.py
--   Reconcile: safety/reconciliation.py    Bankroll: bankroll.py
--   Signal: strategies/base.py             Execution: execution.py
--   Assessor: strategies/llm_market_assessor.py (Placeholder: strategies/placeholder.py)
--   Llm: llm/openrouter.py                 Ws: kalshi/ws.py
--   Scheduler: scheduler.py (Scheduler/Summary the figures of a summary)
--   Storage/Schema: storage/db.py          Ws/Frames: the subscriptions and the frames
--   Recovery: recovery.py                  Halt: safety/halt_actions.py
--   Client: kalshi/client.py (Client/Bucket the token bucket, Client/Categories the categories of
--     markets, Client/Paths the signed path and the parameters)
--   Wire/Prices: the texts of prices       Llm/Parse: the throttle, the object in a reply
--   Texts: string methods on lists of code points
--   Journal: journal/logger.py and journal/discord.py
--   Api: api/auth.py, api/server.py, api/routes (Api/Rows the order and limit of queries)
--   Startup: the choice of the strategy in __main__.py
--   System: what the tasks that __main__.py starts do to the shared state, one after the other
--   Tests: concrete inputs
-- A child module named for a subject proves what its name says of the parent.
--
-- Conventions. State is passed explicitly; an exception is an `Exn` in a `Result`, and a handler
-- that changes state before it raises returns the state with it. What a call reads from outside
-- (clocks, answers of Kalshi, fresh ids) is an argument. Tickers and ids are only compared, so they
-- are numbers. Times are microseconds, days are day numbers in the display zone. Money is a decimal
-- as Python computes it, with the rounding to 28 digits; the exponent limits, which no price of the
-- program comes near, are left out. A float column gives back `float_of d` for a decimal written to
-- it, and `float_of` is a parameter, as are `float_sum`, the sum of floats, `str.lower`, and
-- `naive_seconds`, the time that the server reads from a datetime without a zone.
--
-- Loops are structural recursion: on the pages that Kalshi answers with (an answer that has not come
-- is the outcome `waiting`), on positions, orders and fills, and on the three attempts of a request.
-- The loop of `chat_json` runs on fuel of the two budgets and 2, and it is shown that it ends.
-- The digits that a division computes are bounded by the context, and `digit_count` runs on fuel
-- that its argument bounds.
--
-- Interleaving. A move of `System` runs a handler to its end; the order of the moves is arbitrary.
-- `Execution.Phases` has the handler of signals in the pieces between its waits for Kalshi, and
-- `System.Interleaved` lets the moves of the others come between them. Other handlers are not cut.
--
-- Not modelled: the template of the dashboard and JSON output, the set-up of logging, SQLite itself, the signing of requests,
-- YAML and secrets, the handlers of WebSocket messages, the texts that are posted or logged,
-- and the heartbeat, which changes no state.
pub mod Base
pub mod Result
pub mod Decimal
pub mod Side
pub mod Fees
pub mod Config
pub mod Storage
pub mod KillSwitch
pub mod Pnl
pub mod Risk
pub mod Wire
pub mod Positions
pub mod Fills
pub mod Reconcile
pub mod Bankroll
pub mod Signal
pub mod Execution
pub mod Llm
pub mod Ws
pub mod Texts
pub mod Api
pub mod Journal
pub mod Startup
pub mod System
pub mod Scheduler
pub mod Daily
pub mod Placeholder
pub mod Assessor
pub mod Recovery
pub mod Halt
pub mod Client
pub mod Tests
