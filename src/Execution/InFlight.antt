-- ===== src/Execution/InFlight.antt =====
-- The pieces of the handler of kalshi_agent/execution.py that run while the kill switch is engaged.
use kalshi_agent.Base.{◌≡◌, refl, true, none, some, Option, String, List, [], ◌∷◌, arith}
use kalshi_agent.Decimal.{Decimal}
use kalshi_agent.Result.{Result, ok, err}
use kalshi_agent.Wire.{Market, OrderRequest, OrderResponse, price_str_to_decimal}
use kalshi_agent.Config.{Config}
use kalshi_agent.KillSwitch.{is_engaged}
use kalshi_agent.Risk.{RiskDecision, Reason, rejected}
use kalshi_agent.Risk.Trips.{engaged_rejects}
use kalshi_agent.Bankroll
use kalshi_agent.Signal.{Signal}
use kalshi_agent.Execution.{Agent, Inputs, reject, after_send, trade_request, books_of, ask_of}
use kalshi_agent.Execution.Halted.{note_error_stays}
use kalshi_agent.Execution.Phases.{
  Phase, idle, fetching, pricing, sending, Outcome, waits, ends, begin, take_price, take_decision,
  take_bankroll, take_market, proceed,
}

-- The order that a handler waits for the answer to.
abbrev pub in_flight : Phase → List OrderRequest
in_flight (sending req _) = req ∷ []
in_flight _ = []

abbrev pub sent_list : Option OrderRequest → List OrderRequest
sent_list none = []
sent_list (some req) = req ∷ []

-- The piece leaves the switch engaged, and what it has sent or waits for are these orders.
abbrev pub Holds : List OrderRequest → Outcome → Type 0
Holds reqs (waits p a) = (is_engaged a.kill ≡ true) × (in_flight p ≡ reqs)
Holds reqs (ends h) = (is_engaged h.agent.kill ≡ true) × (sent_list h.sent ≡ reqs)

after_send-Holds :
    (cfg : Config) (i : Inputs) (req : OrderRequest) (a : Agent) (r : Result OrderResponse)
    → is_engaged a.kill ≡ true
    → Holds (req ∷ []) (ends (after_send cfg i req a r))
unfolding after_send
after_send-Holds cfg i req a (ok r) h = (h, refl)
after_send-Holds cfg i req a (err e) h = ground (arith, note_error_stays cfg i.now a h)

rejected-Holds :
    (i : Inputs) (s : Signal) (price : Decimal) (a : Agent) (d : Result RiskDecision)
    (reason : Reason)
    → d ≡ ok (rejected reason)
    → is_engaged a.kill ≡ true
    → Holds [] (take_decision i s price a d)
unfolding take_decision
rejected-Holds i s price a d reason q h = rw q (unfold reject in (h, refl))

pub begin-Holds :
    (i : Inputs) (s : Signal) (a : Agent) → is_engaged a.kill ≡ true → Holds [] (begin i s a)
unfolding begin reject
begin-Holds i s a h = ground arith

module _ (lower : String → String) (cfg : Config) (i : Inputs) where
  take_bankroll-Holds :
      (s : Signal) (m : Market) (price : Decimal) (a : Agent) (r : Result Decimal)
      → is_engaged a.kill ≡ true
      → Holds [] (take_bankroll lower cfg i s m price a r)
  unfolding take_bankroll reject
  take_bankroll-Holds s m price a (err e) h = (h, refl)
  take_bankroll-Holds s m price a (ok b) h =
      let stopped =
        engaged_rejects lower cfg i.now (books_of a.db) a.monitor (trade_request s m price b) a.kill
          h in
      rw stopped (
        ground (
          arith,
          rejected-Holds i s price (record a { kill = a.kill }) _ Reason.kill_switch_engaged refl h,
        ))

  take_price-Holds :
      (s : Signal) (m : Market) (a : Agent) (r : Result Decimal)
      → is_engaged a.kill ≡ true
      → Holds [] (take_price s m a r)
  unfolding take_price
  take_price-Holds s m a (err e) h = (h, refl)
  take_price-Holds s m a (ok price) h = (h, refl)

  take_market-Holds :
      (s : Signal) (a : Agent) (r : Result Market)
      → is_engaged a.kill ≡ true
      → Holds [] (take_market lower cfg i s a r)
  unfolding take_market reject
  take_market-Holds s a (err e) h = ground (arith, note_error_stays cfg i.now a h)
  take_market-Holds s a (ok m) h =
      ground (arith, take_price-Holds s m a (price_str_to_decimal (ask_of s.side m)) h)

  -- While the switch is engaged, the piece behind a wait leaves it engaged and sends no order but
  -- the one that the handler waits for.
  pub proceed-Holds :
      (p : Phase) (a : Agent)
      → is_engaged a.kill ≡ true
      → Holds (in_flight p) (proceed lower cfg i p a)
  unfolding proceed
  proceed-Holds idle a h = (h, refl)
  proceed-Holds (fetching s) a h = take_market-Holds s a i.market h
  proceed-Holds (pricing s m price) a h =
      let fetched = Bankroll.get i.now.monotonic i.balance a.bankroll in
      take_bankroll-Holds s m price (record a { bankroll = fetched.1 }) fetched.0 h
  proceed-Holds (sending req coid) a h =
      after_send-Holds cfg (record i { client_order_id = coid }) req a i.order h
