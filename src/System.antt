-- ===== src/System.antt =====
-- The parts of kalshi_agent that `amain` in kalshi_agent/__main__.py starts, as one system: what its
-- tasks, jobs and requests do to the state that they share, one after the other. Each task's body
-- up to its next wait is one move; a signal is handled in one move.
pub mod Halting
pub mod Trading
pub mod Interleaved
use kalshi_agent.Base.{
  ℕ, Bool, true, false, Option, none, some, String, List, [], ◌∷◌, ◌++◌, length,
}
use kalshi_agent.Decimal.{Decimal}
use kalshi_agent.Result.{Exn, Result, ok, err}
use kalshi_agent.Wire.{PriceText, KalshiPosition, OrderRequest, OrderResponse}
use kalshi_agent.Config.{Config}
use kalshi_agent.Storage.{Db}
use kalshi_agent.KillSwitch.{Switch, HaltFile}
use kalshi_agent.Risk.{Now, background_round}
use kalshi_agent.Signal.{Signal}
use kalshi_agent.Bankroll
use kalshi_agent.Execution.{Agent, Inputs, Handled, handle_signal, books_of}
use kalshi_agent.Fills.{Ingestor, Answer, fetch_and_apply, catch_up}
use kalshi_agent.Scheduler.{tick_reconcile}
use kalshi_agent.Recovery.{recover_in_flight_orders}
use kalshi_agent.Reconcile.{reconcile}
use kalshi_agent.Daily.{snapshot_daily_pnl}
use kalshi_agent.Halt.{Watch, tick}
use kalshi_agent.Texts.{Text}
use kalshi_agent.Api.Auth.{Request}
use kalshi_agent.Api.Server.{Route, World, Service, serve}

-- The executor's state, the mark of the fill ingestor and what the halt monitor last saw; with the
-- orders that have been sent so far.
pub record State : Type 0 where
  pub agent : Agent
  pub high_water_ts : Option ℕ
  pub last_state : Bool
  pub sent : List OrderRequest

-- What Kalshi answers to the start-up sequence.
pub record Startup : Type 0 where
  pub resting : Result (List OrderResponse)
  pub executed : Result (List OrderResponse)
  pub canceled : Result (List OrderResponse)
  pub balance : Result PriceText
  pub positions : Result (List KalshiPosition)
  pub fills : List Answer
  pub monotonic : ℕ
  pub utc : ℕ

-- A signal, a round of the risk monitor's loop, of the halt monitor and of the fill poll, the hourly
-- reconciliation, the midnight job, the start-up sequence, a request, and an operator who writes or
-- removes the HALT file.
pub data Move : Type 0 where
  signal : Signal → Inputs → Move
  risk_round : Now → Move
  halt_round : Result ℕ → Move
  poll : ℕ → List Answer → Move
  hourly : ℕ → Result (List KalshiPosition) → List Answer → Move
  midnight_job : ℕ → ℕ → Move
  startup : Startup → Move
  request : World → Route → Request → Move
  write_file : HaltFile → Move
  remove_file : Move

-- What the process was started with: the configuration, the token, `str.lower`, floats, the
-- first instants of a local day and the next, how a datetime without a zone is
-- read, and whether there is a Discord notifier.
pub record Setup : Type 0 where
  pub cfg : Config
  pub token : Text
  pub lower : String → String
  pub float_of : Decimal → Decimal
  pub float_sum : List Decimal → Decimal
  pub posts : Bool
  pub midnights : ℕ → ℕ × ℕ
  pub naive_seconds : ℕ → ℕ

abbrev pub with_sent : Option OrderRequest → List OrderRequest → List OrderRequest
with_sent none reqs = reqs
with_sent (some req) reqs = reqs ++ req ∷ []

abbrev pub after_signal : Handled → State → State
after_signal h s = record s { agent = h.agent; sent = with_sent h.sent s.sent }

abbrev pub with_kill : Switch → State → State
with_kill kill s = record s { agent = record (s.agent) { kill = kill } }

abbrev pub with_db : Db → State → State
with_db db s = record s { agent = record (s.agent) { db = db } }

abbrev pub ingestor_of : State → Ingestor
ingestor_of s = record { high_water_ts = s.high_water_ts; db = s.agent.db }

abbrev pub with_ingestor : Ingestor → State → State
with_ingestor i s = record s {
  agent = record (s.agent) { db = i.db };
  high_water_ts = i.high_water_ts;
}

abbrev pub with_watch : Watch → State → State
with_watch w s = record s { agent = record (s.agent) { db = w.db }; last_state = w.last_state }

abbrev pub service_of : State → Service
service_of s = record { kill = s.agent.kill; ingestor = ingestor_of s }

abbrev pub with_service : Service → State → State
with_service v s = with_ingestor v.ingestor (with_kill v.kill s)

module _ (setup : Setup) where
  -- `_startup_sequence`: an exception of a step is logged, and the next step follows.
  unfoldable pub startup_sequence : Startup → State → State
  startup_sequence i s =
      let (summary, db) = recover_in_flight_orders i.resting i.executed i.canceled s.agent.db in
      let (value, bankroll) = Bankroll.refresh i.monotonic i.balance s.agent.bankroll in
      let (report, db') = reconcile setup.float_of i.utc i.positions db in
      let (outcome, ingestor) =
        catch_up setup.posts setup.float_of setup.cfg.fees.taker_rate i.utc setup.naive_seconds
          i.fills (record { high_water_ts = s.high_water_ts; db = db' }) in
      record s {
        agent = record (s.agent) { db = ingestor.db; bankroll = bankroll };
        high_water_ts = ingestor.high_water_ts;
      }

  unfoldable pub move : Move → State → State
  unfolding startup_sequence
  move (signal g i) s = after_signal (handle_signal setup.lower setup.cfg i g s.agent) s
  move (risk_round now) s =
      with_kill (background_round setup.cfg now (books_of s.agent.db) s.agent.kill) s
  move (halt_round cancelled) s =
      with_watch
        (tick s.agent.kill cancelled (record { last_state = s.last_state; db = s.agent.db })) s
  move (poll now answers) s =
      let (outcome, i) =
        fetch_and_apply setup.posts setup.float_of setup.cfg.fees.taker_rate now answers
          (ingestor_of s) in
      with_ingestor i s
  move (hourly now remote answers) s =
      with_ingestor
        (tick_reconcile setup.posts setup.float_of setup.naive_seconds setup.cfg.fees.taker_rate now
          remote answers (ingestor_of s))
        s
  move (midnight_job day now) s =
      with_db (snapshot_daily_pnl setup.float_of setup.float_sum setup.midnights day now s.agent.db)
        s
  move (startup i) s = startup_sequence i s
  move (request w route r) s =
      let (response, v) = serve setup.cfg w setup.token route r (service_of s) in with_service v s
  move (write_file f) s = with_kill (some f) s
  move remove_file s = with_kill none s

  unfoldable pub moves : List Move → State → State
  unfolding move
  moves [] s = s
  moves (m ∷ ms) s = moves ms (move m s)
