-- ===== src/System/Interleaved.antt =====
-- The system of kalshi_agent with the waits of the signal handler: between its pieces other tasks,
-- jobs and requests have their turn. The reconciler's lock lets one signal in at a time and keeps
-- reconciliations out meanwhile; here these may come between too, which allows more.
use kalshi_agent.Base.{
  ◌≡◌, ◌∙◌, refl, ap, Bool, true, false, Option, none, some, List, [], ◌∷◌, ◌++◌, any, arith,
}
use kalshi_agent.Wire.{OrderRequest}
use kalshi_agent.KillSwitch.{is_engaged}
use kalshi_agent.Signal.{Signal}
use kalshi_agent.Execution.{Agent, Inputs}
use kalshi_agent.Execution.Phases.{
  Phase, idle, fetching, pricing, sending, Outcome, waits, ends, and_then, begin, proceed,
  uninterrupted_lem,
}
use kalshi_agent.Execution.InFlight.{in_flight, sent_list, Holds, begin-Holds, proceed-Holds}
use kalshi_agent.System.{
  State, Setup, Move, signal, risk_round, halt_round, poll, hourly, midnight_job, startup, request,
  write_file, remove_file, with_sent, after_signal, move,
}
use kalshi_agent.System.Halting.{can_lift, move_halted}

pub record Busy : Type 0 where
  pub system : State
  pub phase : Phase

-- A move of another task or the start of a signal, or the piece behind a wait.
pub data Turn : Type 0 where
  task : Move → Turn
  resumed : Inputs → Turn

abbrev pub with_outcome : Outcome → State → Busy
with_outcome (waits p a) s = record { system = record s { agent = a }; phase = p }
with_outcome (ends h) s = record { system = after_signal h s; phase = idle }

-- A signal that finds the lock taken has no effect yet.
abbrev pub start_signal : Signal → Inputs → State → Phase → Busy
start_signal g i s idle = with_outcome (begin i g s.agent) s
start_signal g i s p = record { system = s; phase = p }

-- The orders that have been sent and the one that is being sent.
abbrev pub orders_out : Busy → List OrderRequest
orders_out b = b.system.sent ++ in_flight b.phase

module _ (setup : Setup) where
  abbrev pub by_task : Move → Busy → Busy
  by_task (signal g i) b = start_signal g i b.system b.phase
  by_task m b = record b { system = move setup m b.system }

  unfoldable pub turn : Turn → Busy → Busy
  turn (task m) b = by_task m b
  turn (resumed i) b =
      with_outcome (proceed setup.lower setup.cfg i b.phase b.system.agent) b.system

  unfoldable pub turns : List Turn → Busy → Busy
  turns [] b = b
  turns (t ∷ ts) b = turns ts (turn t b)

  -- The turns that can lift a halt are those of the moves that can.
  abbrev pub lifts : Turn → Bool
  lifts (task m) = can_lift setup m
  lifts (resumed i) = false

sent_with :
    (o : Option OrderRequest) (reqs : List OrderRequest) → with_sent o reqs ≡ reqs ++ sent_list o
sent_with none [] = refl
sent_with none (r ∷ reqs) = ap (λ rs. r ∷ rs) (sent_with none reqs)
sent_with (some req) reqs = refl

append_nil : (reqs : List OrderRequest) → reqs ++ [] ≡ reqs
append_nil [] = refl
append_nil (r ∷ reqs) = ap (λ rs. r ∷ rs) (append_nil reqs)

engaged_outcome :
    (reqs : List OrderRequest) (o : Outcome) (s : State)
    → Holds reqs o
    → (is_engaged (with_outcome o s).system.agent.kill ≡ true)
      × (orders_out (with_outcome o s) ≡ s.sent ++ reqs)
engaged_outcome reqs (waits p a) s (on, same) = (on, ap (λ rs. s.sent ++ rs) same)
engaged_outcome reqs (ends h) s (on, same) =
    (on, append_nil _ ∙ sent_with h.sent s.sent ∙ ap (λ rs. s.sent ++ rs) same)

engaged_start :
    (g : Signal) (i : Inputs) (s : State) (p : Phase)
    → is_engaged s.agent.kill ≡ true
    → (is_engaged (start_signal g i s p).system.agent.kill ≡ true)
      × (orders_out (start_signal g i s p) ≡ s.sent ++ in_flight p)
engaged_start g i s idle on = engaged_outcome [] (begin i g s.agent) s (begin-Holds i g s.agent on)
engaged_start g i s (fetching x) on = (on, refl)
engaged_start g i s (pricing x m d) on = (on, refl)
engaged_start g i s (sending req coid) on = (on, refl)

later_outcome :
    (o : Outcome) (a : Agent) (s : State)
    → with_outcome o (record s { agent = a }) ≡ with_outcome o s
later_outcome (waits p b) a s = refl
later_outcome (ends h) a s = refl

module _ (setup : Setup) where
  engaged_move :
      (m : Move) (b : Busy)
      → can_lift setup m ≡ false
      → is_engaged b.system.agent.kill ≡ true
      → (is_engaged (move setup m b.system).agent.kill ≡ true)
        × ((move setup m b.system).sent ++ in_flight b.phase ≡ orders_out b)
  engaged_move m b q on =
      let (still, same) = move_halted setup m b.system q on in
      (still, ap (λ rs. rs ++ in_flight b.phase) same)

  engaged_task :
      (m : Move) (b : Busy)
      → can_lift setup m ≡ false
      → is_engaged b.system.agent.kill ≡ true
      → (is_engaged (by_task setup m b).system.agent.kill ≡ true)
        × (orders_out (by_task setup m b) ≡ orders_out b)
  engaged_task (signal g i) b q on = engaged_start g i b.system b.phase on
  engaged_task (risk_round now) b q on = engaged_move (risk_round now) b q on
  engaged_task (request w route r) b q on = engaged_move (request w route r) b q on
  engaged_task remove_file b q on = engaged_move remove_file b q on
  engaged_task (write_file f) b q on = engaged_move (write_file f) b q on
  engaged_task (halt_round c) b q on = engaged_move (halt_round c) b q on
  engaged_task (poll now answers) b q on = engaged_move (poll now answers) b q on
  engaged_task (hourly now remote answers) b q on = engaged_move (hourly now remote answers) b q on
  engaged_task (midnight_job day now) b q on = engaged_move (midnight_job day now) b q on
  engaged_task (startup i) b q on = engaged_move (startup i) b q on

  engaged_turn :
      (t : Turn) (b : Busy)
      → lifts setup t ≡ false
      → is_engaged b.system.agent.kill ≡ true
      → (is_engaged (turn setup t b).system.agent.kill ≡ true)
        × (orders_out (turn setup t b) ≡ orders_out b)
  unfolding turn
  engaged_turn (task m) b q on = engaged_task m b q on
  engaged_turn (resumed i) b q on =
      engaged_outcome (in_flight b.phase) (proceed setup.lower setup.cfg i b.phase b.system.agent)
        b.system (proceed-Holds setup.lower setup.cfg i b.phase b.system.agent on)

  -- From an engaged kill switch on, the orders that have been sent, with the one that was being
  -- sent when the switch was engaged, stay the same, in whatever order the pieces of signal
  -- handlers and the other tasks have their turns: nothing but that one order goes out, as long as
  -- the HALT file is not removed and no resume request comes with the token; the switch stays
  -- engaged.
  pub halt_lets_one_pass :
      (ts : List Turn) (b : Busy)
      → any (lifts setup) ts ≡ false
      → is_engaged b.system.agent.kill ≡ true
      → (is_engaged (turns setup ts b).system.agent.kill ≡ true)
        × (orders_out (turns setup ts b) ≡ orders_out b)
  unfolding turns
  halt_lets_one_pass [] b q on = (on, refl)
  halt_lets_one_pass (t ∷ ts) b q on =
      let (still, same) = engaged_turn t b (ground arith) on in
      let (still', same') = halt_lets_one_pass ts (turn setup t b) (ground arith) still in
      (still', same' ∙ same)

  resumed_outcome :
      (i : Inputs) (o : Outcome) (s : State)
      → turn setup (resumed i) (with_outcome o s)
        ≡ with_outcome (and_then o (proceed setup.lower setup.cfg i)) s
  unfolding turn proceed
  resumed_outcome i (waits p a) s = later_outcome (proceed setup.lower setup.cfg i p a) a s
  resumed_outcome i (ends h) s = refl

  -- A signal whose handler is not interrupted is the one move of the system.
  uninterrupted_signal :
      (g : Signal) (i : Inputs) (s : State)
      → turns setup
          (task (signal g i) ∷ resumed i ∷ resumed i ∷ resumed i ∷ [])
          (record { system = s; phase = idle })
        ≡ record { system = move setup (signal g i) s; phase = idle }
  unfolding turns move
  uninterrupted_signal g i s =
      let go : Busy → Busy = turn setup (resumed i) in
      let next : Outcome → Outcome = λ o. and_then o (proceed setup.lower setup.cfg i) in
      let o = begin i g s.agent in
      let started : turn setup (task (signal g i)) (record { system = s; phase = idle })
          ≡ with_outcome o s =
        unfold turn in refl in
      ap (λ b. go (go (go b))) started
      ∙ ap (λ b. go (go b)) (resumed_outcome i o s)
      ∙ ap go (resumed_outcome i (next o) s)
      ∙ resumed_outcome i (next (next o)) s
      ∙ ap (λ x. with_outcome x s) (uninterrupted_lem setup.lower setup.cfg i g s.agent)
