-- ===== src/System/Trading.antt =====
-- An abstract view of kalshi_agent: whether trading is halted, and how many orders have been sent;
-- and that every move of the system is a step of it.
use kalshi_agent.Base.{
  ℕ, suc, ◌≡◌, ◌∙◌, refl, ap, Bool, true, false, Option-cases, Bool-cases, none, some, List, [],
  ◌∷◌, map, length, length-append, arith, inl, inr,
}
use kalshi_agent.Wire.{OrderRequest}
use kalshi_agent.KillSwitch.{is_engaged}
use kalshi_agent.Execution.{handle_signal}
use kalshi_agent.Execution.Halted.{halted_signal-Idle}
use kalshi_agent.Signal.{Signal}
use kalshi_agent.Execution.{Inputs}
use kalshi_agent.System.{
  State, Setup, Move, signal, risk_round, halt_round, poll, hourly, midnight_job, startup, request,
  write_file, remove_file, with_sent, startup_sequence, move, moves,
}
use kalshi_agent.System.Halting.{can_lift, move_halted}

-- Halted or not, and the number of orders sent.
abbrev pub View : Type 0
View = Bool × ℕ

-- The steps of the abstract machine; the Boolean says whether a halt may be lifted.
pub data Step : Bool → View → View → Type 0 where
  stay : (may : Bool) (v : View) → Step may v v
  order : (may halted : Bool) (n : ℕ) → Step may (false, n) (halted, suc n)
  trip : (may : Bool) (n : ℕ) → Step may (false, n) (true, n)
  lift : (n : ℕ) → Step true (true, n) (false, n)

-- Runs of steps; the Boolean says whether a halt may be lifted on the way.
pub data Run : List Bool → View → View → Type 0 where
  start : (v : View) → Run [] v v
  next :
      (may : Bool) (mays : List Bool) (u v w : View)
      → Step may u v
      → Run mays v w
      → Run (may ∷ mays) u w

abbrev pub view : State → View
view s = (is_engaged s.agent.kill, length s.sent)

step_without_order :
    (may before after : Bool) (n : ℕ)
    → (may ≡ false → before ≡ true → after ≡ true)
    → Step may (before, n) (after, n)
step_without_order may true true n h = stay may (true, n)
step_without_order true true false n h = lift n
step_without_order false true false n h = absurd (ground (arith, h refl refl))
step_without_order may false true n h = trip may n
step_without_order may false false n h = stay may (false, n)

step_with_order :
    (may before after : Bool) (n m : ℕ)
    → before ≡ false
    → m ≡ suc n
    → Step may (before, n) (after, m)
step_with_order may true after n m off more = absurd (ground arith)
step_with_order may false after n m off more = rw more (order may after n)

module _ (setup : Setup) where
  -- A move that sends no order.
  quiet_step :
      (m : Move) (s : State)
      → (move setup m s).sent ≡ s.sent
      → Step (can_lift setup m) (view s) (view (move setup m s))
  quiet_step m s same = rw same (
      step_without_order (can_lift setup m) (is_engaged s.agent.kill)
        (is_engaged (move setup m s).agent.kill) (length s.sent)
        (λ q h. (move_halted setup m s q h).0))

  off_if_sent :
      (g : Signal) (i : Inputs) (s : State) (req : OrderRequest)
      → (handle_signal setup.lower setup.cfg i g s.agent).sent ≡ some req
      → is_engaged s.agent.kill ≡ false
  off_if_sent g i s req q = elim (Bool-cases (is_engaged s.agent.kill)) [
    | inl on ↦ absurd (ground (arith, (halted_signal-Idle setup.lower setup.cfg i g s.agent on).0))
    | inr off ↦ off
  ]

  sent_grows :
      (g : Signal) (i : Inputs) (s : State) (req : OrderRequest)
      → (handle_signal setup.lower setup.cfg i g s.agent).sent ≡ some req
      → length (move setup (signal g i) s).sent ≡ suc (length s.sent)
  unfolding move
  sent_grows g i s req q =
      ap (λ o. length (with_sent o s.sent)) q ∙ length-append s.sent _ ∙ omega arith

  nothing_sent :
      (g : Signal) (i : Inputs) (s : State)
      → (handle_signal setup.lower setup.cfg i g s.agent).sent ≡ none
      → (move setup (signal g i) s).sent ≡ s.sent
  unfolding move
  nothing_sent g i s q = ap (λ o. with_sent o s.sent) q

  -- Every move of the system is a step of the abstract machine: it sends at most one order, and one
  -- only where trading is not halted, and it lifts a halt only if it removes the HALT file or is a
  -- resume request with the token.
  pub move-Step : (m : Move) (s : State) → Step (can_lift setup m) (view s) (view (move setup m s))
  unfolding move startup_sequence
  move-Step (signal g i) s =
      elim (Option-cases (handle_signal setup.lower setup.cfg i g s.agent).sent) [
        | inl q ↦ quiet_step (signal g i) s (nothing_sent g i s q)
        | inr (req, q) ↦
            step_with_order false (is_engaged s.agent.kill)
              (is_engaged (move setup (signal g i) s).agent.kill) (length s.sent)
              (length (move setup (signal g i) s).sent) (off_if_sent g i s req q)
              (sent_grows g i s req q)
      ]
  move-Step (risk_round now) s = quiet_step (risk_round now) s refl
  move-Step (request w route r) s = quiet_step (request w route r) s refl
  move-Step remove_file s = quiet_step remove_file s refl
  move-Step (write_file f) s = quiet_step (write_file f) s refl
  move-Step (halt_round c) s = quiet_step (halt_round c) s refl
  move-Step (poll now answers) s = quiet_step (poll now answers) s refl
  move-Step (hourly now remote answers) s = quiet_step (hourly now remote answers) s refl
  move-Step (midnight_job day now) s = quiet_step (midnight_job day now) s refl
  move-Step (startup i) s = quiet_step (startup i) s refl

  -- Every run of the system is a run of the abstract machine, whose halts are lifted only by moves
  -- that may do so.
  pub moves-Run :
      (ms : List Move) (s : State)
      → Run (map (can_lift setup) ms) (view s) (view (moves setup ms s))
  unfolding moves
  moves-Run [] s = start (view s)
  moves-Run (m ∷ ms) s =
      next (can_lift setup m) (map (can_lift setup) ms) (view s) (view (move setup m s)) _
        (move-Step m s) (moves-Run ms (move setup m s))
