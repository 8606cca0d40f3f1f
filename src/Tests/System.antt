-- ===== src/Tests/System.antt =====
-- Runs of the whole system at concrete inputs.
use kalshi_agent.Base.{suc, ◌*◌, ◌||◌, ◌≡◌, refl, true, false, none, List, [], ◌∷◌, any, map}
use kalshi_agent.Decimal.{of_ℕ, sum_D, ltb_D, ◌*D◌}
use kalshi_agent.Result.{ok}
use kalshi_agent.Config.{Config}
use kalshi_agent.KillSwitch.{unreadable, is_engaged}
use kalshi_agent.Risk.{
  position_exposure, total_exposure, daily_realized_pnl_dollars, daily_loss_reached,
}
use kalshi_agent.Execution.{books_of}
use kalshi_agent.Halt.{is_live_order}
use kalshi_agent.System.{
  State, Setup, Move, signal, risk_round, halt_round, write_file, move, moves,
}
use kalshi_agent.System.Halting.{can_lift, breach_stops_trading}
use kalshi_agent.Execution.Phases.{idle}
use kalshi_agent.System.Interleaved.{
  Busy, Turn, task, resumed, turns, turn, orders_out, halt_lets_one_pass,
}
use kalshi_agent.Scheduler.{Handling, tick_strategy}
use kalshi_agent.Scheduler.Exposure.{tick_checks_first_books}
use kalshi_agent.System.Trading.{Run, view, moves-Run}
use kalshi_agent.Fills.{seconds}
use kalshi_agent.Tests.Samples
use kalshi_agent.Tests.Samples.{
  same_text, same_decimal, config, now, held_position, db, agent, inputs,
}

-- The test configuration, with a total exposure of at most 10 dollars.
abbrev strict : Config
strict = record config { risk = record (config.risk) { max_total_exposure_usd = of_ℕ 10 } }

abbrev setup : Setup
setup = record {
  cfg = strict;
  token = 116 ∷ [];
  lower = same_text;
  float_of = same_decimal;
  float_sum = λ ds. sum_D (of_ℕ 0) ds;
  posts = false;
  naive_seconds = seconds;
  midnights = λ day. (day * 86_400_000_000, suc day * 86_400_000_000);
}

abbrev state : State
state = record { agent = agent; high_water_ts = none; last_state = false; sent = [] }

-- 30 contracts at 0.45, which is more than 10 dollars.
abbrev exposed : State
exposed = record state {
  agent = record agent {
    db = record db { ledger = record (db.ledger) { positions = held_position ∷ [] } };
  };
}

-- A signal that is sent, an order by an operator to halt, and a signal that is not.
abbrev day : List Move
day = signal Samples.signal inputs ∷ write_file unreadable ∷ signal Samples.signal inputs ∷ []

-- A signal whose order is on its way when an operator halts.
abbrev on_its_way : Busy
on_its_way =
    turns setup
      (task (signal Samples.signal inputs)
        ∷ resumed inputs
        ∷ resumed inputs
        ∷ task (write_file unreadable)
        ∷ [])
      (record { system = state; phase = idle })

-- The halt monitor sees the switch, the answer to the order comes, and another signal.
abbrev behind : List Turn
behind =
    task (halt_round (ok 0))
    ∷ resumed inputs
    ∷ task (signal Samples.signal inputs)
    ∷ resumed inputs
    ∷ []

halt_seen : is_engaged on_its_way.system.agent.kill ≡ true
unfolding turns turn move
halt_seen = refl

one_passes :
    (is_engaged (turns setup behind on_its_way).system.agent.kill ≡ true)
    × (orders_out (turns setup behind on_its_way) ≡ orders_out on_its_way)
one_passes = halt_lets_one_pass setup behind on_its_way refl halt_seen

abbrev handling : Handling
handling = (Samples.signal, inputs)

second_on_first_books :
    let ahead = tick_strategy same_text config (ok (handling ∷ [])) agent in
    (tick_strategy same_text config (ok (handling ∷ handling ∷ [])) agent
      ≡ tick_strategy same_text config (ok (handling ∷ [])) ahead)
    × (books_of ahead.db ≡ books_of agent.db)
    × (total_exposure ahead.db.ledger.positions ≡ total_exposure agent.db.ledger.positions)
second_on_first_books =
    tick_checks_first_books same_text config (handling ∷ []) (handling ∷ []) agent

over_limit :
    ltb_D strict.risk.max_total_exposure_usd (total_exposure exposed.agent.db.ledger.positions)
      || daily_loss_reached strict (daily_realized_pnl_dollars now (books_of exposed.agent.db))
    ≡ true
unfolding ltb_D total_exposure sum_D position_exposure ◌*D◌
over_limit = refl

breached :
    let s' =
      moves setup (signal Samples.signal inputs ∷ []) (move setup (risk_round now) exposed) in
    (is_engaged s'.agent.kill ≡ true)
    × (s'.sent ≡ exposed.sent)
    × (any is_live_order (move setup (halt_round (ok 0)) s').agent.db.orders ≡ false)
breached =
    breach_stops_trading setup exposed now (signal Samples.signal inputs ∷ []) (ok 0) over_limit
      refl refl refl

day-Run : Run (map (can_lift setup) day) (view state) (view (moves setup day state))
day-Run = moves-Run setup day state
