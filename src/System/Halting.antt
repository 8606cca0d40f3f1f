-- ===== src/System/Halting.antt =====
-- What the kill switch means for the whole of kalshi_agent.
use kalshi_agent.Base.{
  ℕ, ◌≡◌, ◌∙◌, refl, ap, Bool, true, false, ◌&&◌, ◌||◌, Bool-cases, none, some, List, [], ◌∷◌, any,
  arith, inl, inr,
}
use kalshi_agent.Config.{Config}
use kalshi_agent.KillSwitch.{Switch, is_engaged}
use kalshi_agent.Risk.{Now, total_exposure, daily_realized_pnl_dollars, daily_loss_reached}
use kalshi_agent.Decimal.{ltb_D}
use kalshi_agent.Risk.Trips.{background_round_trips}
use kalshi_agent.Execution.{books_of}
use kalshi_agent.Execution.Halted.{halted_signal-Idle, engaged_stays}
use kalshi_agent.Halt.{is_live_order, Watch, tick}
use kalshi_agent.Halt.Edges.{engaged_leaves_no_live}
use kalshi_agent.Result.{Result}
use kalshi_agent.Api.Control.{halt}
use kalshi_agent.Api.Auth.{Request, Verdict, passes, unauthorized, type_error}
use kalshi_agent.Api.Server.{
  Route, post_resume, post_halt, Response, World, Service, handle, dependency, guarded, serve,
}
use kalshi_agent.System.{
  State, Setup, Move, signal, risk_round, halt_round, poll, hourly, midnight_job, startup, request,
  write_file, remove_file, with_sent, service_of, startup_sequence, move, moves,
}

abbrev pub is_resume : Route → Bool
is_resume post_resume = true
is_resume _ = false

abbrev pub is_passed : Verdict → Bool
is_passed passes = true
is_passed _ = false

-- The moves that can lift a halt: the removal of the file, and a resume request with the token.
abbrev pub can_lift : Setup → Move → Bool
can_lift setup remove_file = true
can_lift setup (write_file f) = false
can_lift setup (request w route r) =
    is_resume route && is_passed (dependency w.lower setup.token route r)
can_lift setup _ = false

abbrev pub is_halt_round : Move → Bool
is_halt_round (halt_round _) = true
is_halt_round _ = false

handle_stays :
    (cfg : Config) (w : World) (route : Route) (s : Service)
    → is_resume route ≡ false
    → is_engaged s.kill ≡ true
    → (handle cfg w route s).1.kill ≡ s.kill
unfolding handle halt
handle_stays cfg w post_resume s q h = absurd (ground arith)
handle_stays cfg w (post_halt x) s q h = engaged_stays _ _ w.now s.kill h
handle_stays cfg w _ s q h = refl

guarded_stays :
    (v : Verdict) (done : Response × Service) (s : Service)
    → (v ≡ passes → done.1.kill ≡ s.kill)
    → (guarded v done s).1.kill ≡ s.kill
guarded_stays passes done s h = h refl
guarded_stays unauthorized done s h = refl
guarded_stays type_error done s h = refl

serve_stays :
    (setup : Setup) (w : World) (route : Route) (r : Request) (s : Service)
    → can_lift setup (request w route r) ≡ false
    → is_engaged s.kill ≡ true
    → (serve setup.cfg w setup.token route r s).1.kill ≡ s.kill
unfolding serve
serve_stays setup w route r s q h = elim (Bool-cases (is_resume route)) [
  | inl b ↦
      guarded_stays (dependency w.lower setup.token route r) (handle setup.cfg w route s) s
        (λ p. absurd (ground (arith, ap is_passed p)))
  | inr b ↦
      guarded_stays (dependency w.lower setup.token route r) (handle setup.cfg w route s) s
        (λ p. handle_stays setup.cfg w route s b h)
]

seen_clears :
    (kill : Switch) (c : Result ℕ) (w : Watch)
    → is_engaged kill ≡ true
    → w.last_state ≡ false
    → any is_live_order (tick kill c w).db.orders ≡ false
seen_clears none c w on off = absurd (ground arith)
seen_clears (some f) c w on off = (engaged_leaves_no_live f c w off).0

module _ (setup : Setup) where
  -- A move that cannot lift a halt leaves the switch engaged and sends no order.
  pub move_halted :
      (m : Move) (s : State)
      → can_lift setup m ≡ false
      → is_engaged s.agent.kill ≡ true
      → (is_engaged (move setup m s).agent.kill ≡ true) × ((move setup m s).sent ≡ s.sent)
  unfolding move startup_sequence
  move_halted (signal g i) s q h =
      let (none_sent, same) = halted_signal-Idle setup.lower setup.cfg i g s.agent h in
      (ap is_engaged same ∙ h, ap (λ o. with_sent o s.sent) none_sent)
  move_halted (risk_round now) s q h = (
    ap is_engaged ((background_round_trips setup.cfg now (books_of s.agent.db) s.agent.kill).1 h)
        ∙ h,
    refl,
  )
  move_halted (request w route r) s q h =
      (ap is_engaged (serve_stays setup w route r (service_of s) q h) ∙ h, refl)
  move_halted remove_file s q h = absurd (ground arith)
  move_halted (write_file f) s q h = (refl, refl)
  move_halted (halt_round c) s q h = (h, refl)
  move_halted (poll now answers) s q h = (h, refl)
  move_halted (hourly now remote answers) s q h = (h, refl)
  move_halted (midnight_job day now) s q h = (h, refl)
  move_halted (startup i) s q h = (h, refl)

  -- From an engaged switch on no order is sent, and the switch stays engaged, whatever signals,
  -- rounds, jobs, requests and changes of the HALT file follow, as long as the file is not removed
  -- and no resume request comes with the token.
  halt_holds :
      (ms : List Move) (s : State)
      → any (can_lift setup) ms ≡ false
      → is_engaged s.agent.kill ≡ true
      → (is_engaged (moves setup ms s).agent.kill ≡ true) × ((moves setup ms s).sent ≡ s.sent)
  unfolding moves
  halt_holds [] s q h = (h, refl)
  halt_holds (m ∷ ms) s q h =
      let (on, same) = move_halted m s (ground arith) h in
      let (on', same') = halt_holds ms (move setup m s) (ground arith) on in (on', same' ∙ same)

  -- Only a round of the halt monitor changes what it last saw.
  move_last_state :
      (m : Move) (s : State) → is_halt_round m ≡ false → (move setup m s).last_state ≡ s.last_state
  unfolding move startup_sequence
  move_last_state (halt_round c) s q = absurd (ground arith)
  move_last_state (signal g i) s q = refl
  move_last_state (risk_round now) s q = refl
  move_last_state (request w route r) s q = refl
  move_last_state remove_file s q = refl
  move_last_state (write_file f) s q = refl
  move_last_state (poll now answers) s q = refl
  move_last_state (hourly now remote answers) s q = refl
  move_last_state (midnight_job day now) s q = refl
  move_last_state (startup i) s q = refl

  moves_last_state :
      (ms : List Move) (s : State)
      → any is_halt_round ms ≡ false
      → (moves setup ms s).last_state ≡ s.last_state
  unfolding moves
  moves_last_state [] s q = refl
  moves_last_state (m ∷ ms) s q =
      moves_last_state ms (move setup m s) (ground arith) ∙ move_last_state m s (ground arith)

  halt_round_clears :
      (c : Result ℕ) (s : State)
      → is_engaged s.agent.kill ≡ true
      → s.last_state ≡ false
      → any is_live_order (move setup (halt_round c) s).agent.db.orders ≡ false
  unfolding move
  halt_round_clears c s on off =
      seen_clears s.agent.kill c (record { last_state = s.last_state; db = s.agent.db }) on off

  breach_engages :
      (s : State) (now : Now)
      → ltb_D setup.cfg.risk.max_total_exposure_usd (total_exposure s.agent.db.ledger.positions)
          || daily_loss_reached setup.cfg (daily_realized_pnl_dollars now (books_of s.agent.db))
        ≡ true
      → is_engaged (move setup (risk_round now) s).agent.kill ≡ true
  unfolding move
  breach_engages s now breach =
      ground (arith, (background_round_trips setup.cfg now (books_of s.agent.db) s.agent.kill).0)

  risk_round_sent : (s : State) (now : Now) → (move setup (risk_round now) s).sent ≡ s.sent
  unfolding move
  risk_round_sent s now = refl

  -- Where the total exposure is above its limit or the daily loss has reached it, the next round of
  -- the risk monitor's loop stops the trading: whatever moves follow that cannot lift a halt, no
  -- further order is sent, and the next round of the halt monitor leaves no order of the book
  -- pending, resting or open, if the monitor last saw the switch off.
  pub breach_stops_trading :
      (s : State) (now : Now) (ms : List Move) (c : Result ℕ)
      → ltb_D setup.cfg.risk.max_total_exposure_usd (total_exposure s.agent.db.ledger.positions)
          || daily_loss_reached setup.cfg (daily_realized_pnl_dollars now (books_of s.agent.db))
        ≡ true
      → any (can_lift setup) ms ≡ false
      → any is_halt_round ms ≡ false
      → s.last_state ≡ false
      → let s' = moves setup ms (move setup (risk_round now) s) in
        (is_engaged s'.agent.kill ≡ true)
        × (s'.sent ≡ s.sent)
        × (any is_live_order (move setup (halt_round c) s').agent.db.orders ≡ false)
  breach_stops_trading s now ms c breach quiet no_round off =
      let s1 = move setup (risk_round now) s in
      let (on, same) = halt_holds ms s1 quiet (breach_engages s now breach) in
      (
        on,
        same ∙ risk_round_sent s now,
        halt_round_clears c (moves setup ms s1) on
            (moves_last_state ms s1 no_round ∙ move_last_state (risk_round now) s refl ∙ off),
      )
