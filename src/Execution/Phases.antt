-- ===== src/Execution/Phases.antt =====
-- The handler of kalshi_agent/execution.py in the pieces between which it waits: for the market, for
-- the bankroll and for the answer to the order. What a piece reads comes as `Inputs` of its own.
use kalshi_agent.Base.{
  ℕ, ◌≡◌, refl, true, not, none, some, String, [], ◌∷◌, ◌++◌, if◌then◌else◌, arith, Bool-cases, inl,
  inr,
}
use kalshi_agent.Decimal.{Decimal, of_ℕ, leb_D}
use kalshi_agent.Result.{Result, ok, err, integrity_error}
use kalshi_agent.Wire.{Market, OrderRequest, price_str_to_decimal, price_decimal_to_str}
use kalshi_agent.Config.{Config}
use kalshi_agent.Storage.{
  signal_expired, signal_expired_preflight, market_fetch_failed, no_ask_price, zero_bankroll,
  market_not_active, risk_rejected,
}
use kalshi_agent.Risk.{RiskDecision, check_trade, record_order_attempt}
use kalshi_agent.Bankroll
use kalshi_agent.Signal.{Signal, is_expired}
use kalshi_agent.Execution.{
  Agent, Inputs, Handled, raises, reject, note_error, is_kalshi_error, persist_decision, is_taken,
  pending_order, order_request, after_send, submit, place_order, trade_request, after_check,
  books_of, is_open, ask_of, has_text, with_bankroll, with_price, with_market, handle_signal,
}

-- Where the handler waits; behind the order it needs the request and the client order id.
pub data Phase : Type 0 where
  idle : Phase
  fetching : Signal → Phase
  pricing : Signal → Market → Decimal → Phase
  sending : OrderRequest → ℕ → Phase

-- A piece ends in the next wait, or the handler ends.
pub data Outcome : Type 0 where
  waits : Phase → Agent → Outcome
  ends : Handled → Outcome

abbrev pub and_then : Outcome → (Phase → Agent → Outcome) → Outcome
and_then (waits p a) f = f p a
and_then (ends h) f = ends h

unfoldable pub begin : Inputs → Signal → Agent → Outcome
begin i s a =
    if is_expired i.now.utc s
    then ends (reject s signal_expired i.now.utc a)
    else waits (fetching s) a

unfoldable pub take_price : Signal → Market → Agent → Result Decimal → Outcome
take_price s m a (err e) = ends (raises e a)
take_price s m a (ok price) = waits (pricing s m price) a

unfoldable pub enter_order : Inputs → Signal → ℕ → ℕ → Agent → Result Decimal → Outcome
enter_order i s count decision_id a (err e) = ends (raises e a)
enter_order i s count decision_id a (ok text) =
    let row = pending_order s count text i.client_order_id decision_id i.now.utc in
    let a' : Agent = record a {
      db = record (a.db) { orders = a.db.orders ++ row ∷ [] };
      monitor = record_order_attempt i.now.monotonic a.monitor;
    } in
    if is_taken i.client_order_id a.db.orders
    then ends (raises integrity_error a)
    else waits (sending (order_request s count text i.client_order_id) i.client_order_id) a'

unfoldable pub place : Inputs → Signal → ℕ → Decimal → Agent → Outcome
place i s count price a =
    let (id, db) = persist_decision s true none (some i.client_order_id) i.now.utc a.db in
    enter_order i s count id (record a { db = db }) (price_decimal_to_str price)

unfoldable pub take_decision : Inputs → Signal → Decimal → Agent → Result RiskDecision → Outcome
take_decision i s price a (err e) = ends (raises e a)
take_decision i s price a (ok d) =
    if not d.allowed
    then ends (reject s risk_rejected i.now.utc a)
    else if is_expired i.preflight s
    then ends (reject s signal_expired_preflight i.preflight a)
    else place i s d.sized_contracts price a

module _ (lower : String → String) (cfg : Config) (i : Inputs) where
  unfoldable pub take_bankroll : Signal → Market → Decimal → Agent → Result Decimal → Outcome
  take_bankroll s m price a (err e) = ends (raises e a)
  take_bankroll s m price a (ok bankroll) =
      let (decision, kill) =
        check_trade lower cfg i.now (books_of a.db) a.monitor (trade_request s m price bankroll)
          a.kill in
      if leb_D bankroll (of_ℕ 0)
      then ends (reject s zero_bankroll i.now.utc a)
      else take_decision i s price (record a { kill = kill }) decision

  unfoldable pub take_market : Signal → Agent → Result Market → Outcome
  take_market s a (ok m) =
      let ask = ask_of s.side m in
      if not (is_open lower m)
      then ends (reject s (market_not_active m.status) i.now.utc a)
      else if not (has_text ask)
      then ends (reject s no_ask_price i.now.utc a)
      else take_price s m a (price_str_to_decimal ask)
  take_market s a (err e) = ends (
      if is_kalshi_error e
      then reject s market_fetch_failed i.now.utc (note_error cfg i.now a)
      else raises e a)

  -- The piece behind a wait.
  unfoldable pub proceed : Phase → Agent → Outcome
  proceed idle a = waits idle a
  proceed (fetching s) a = take_market s a i.market
  proceed (pricing s m price) a =
      let (bankroll, b) = Bankroll.get i.now.monotonic i.balance a.bankroll in
      take_bankroll s m price (record a { bankroll = b }) bankroll
  proceed (sending req coid) a =
      ends (after_send cfg (record i { client_order_id = coid }) req a i.order)

  entered_proceeds :
      (s : Signal) (count id : ℕ) (a : Agent) (r : Result Decimal)
      → and_then (enter_order i s count id a r) proceed ≡ ends (submit cfg i s count id a r)
  unfolding enter_order submit proceed
  entered_proceeds s count id a (err e) = refl
  entered_proceeds s count id a (ok text) =
      elim (Bool-cases (is_taken i.client_order_id a.db.orders)) [
        | inl q ↦ rw q refl
        | inr q ↦ rw q refl
      ]

  placed_proceeds :
      (s : Signal) (count : ℕ) (price : Decimal) (a : Agent)
      → and_then (place i s count price a) proceed ≡ ends (place_order cfg i s count price a)
  unfolding place place_order
  placed_proceeds s count price a = entered_proceeds s count _ _ (price_decimal_to_str price)

  decided_proceeds :
      (s : Signal) (price : Decimal) (a : Agent) (r : Result RiskDecision)
      → and_then (take_decision i s price a r) proceed ≡ ends (after_check cfg i s price a r)
  unfolding take_decision after_check
  decided_proceeds s price a (err e) = refl
  decided_proceeds s price a (ok d) = ground (arith, placed_proceeds s d.sized_contracts price a)

  funded_proceeds :
      (s : Signal) (m : Market) (price : Decimal) (a : Agent) (r : Result Decimal)
      → and_then (take_bankroll s m price a r) proceed
        ≡ ends (with_bankroll lower cfg i s m price a r)
  unfolding take_bankroll with_bankroll
  funded_proceeds s m price a (err e) = refl
  funded_proceeds s m price a (ok bankroll) =
      let (decision, kill) =
        check_trade lower cfg i.now (books_of a.db) a.monitor (trade_request s m price bankroll)
          a.kill in
      ground (arith, decided_proceeds s price (record a { kill = kill }) decision)

  priced_proceeds :
      (s : Signal) (m : Market) (a : Agent) (r : Result Decimal)
      → and_then (and_then (take_price s m a r) proceed) proceed
        ≡ ends (with_price lower cfg i s m a r)
  unfolding take_price with_price proceed
  priced_proceeds s m a (err e) = refl
  priced_proceeds s m a (ok price) =
      let fetched = Bankroll.get i.now.monotonic i.balance a.bankroll in
      funded_proceeds s m price (record a { bankroll = fetched.1 }) fetched.0

  fetched_proceeds :
      (s : Signal) (a : Agent) (r : Result Market)
      → and_then (and_then (take_market s a r) proceed) proceed
        ≡ ends (with_market lower cfg i s a r)
  unfolding take_market with_market
  fetched_proceeds s a (err e) = refl
  fetched_proceeds s a (ok m) =
      ground (arith, priced_proceeds s m a (price_str_to_decimal (ask_of s.side m)))

  -- With nothing between its pieces, the handler does what `handle_signal` does in one go: it ends,
  -- after at most three waits.
  pub uninterrupted_lem :
      (s : Signal) (a : Agent)
      → and_then (and_then (and_then (begin i s a) proceed) proceed) proceed
        ≡ ends (handle_signal lower cfg i s a)
  unfolding begin handle_signal proceed
  uninterrupted_lem s a = ground (arith, fetched_proceeds s a i.market)
