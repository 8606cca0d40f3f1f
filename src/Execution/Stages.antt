-- ===== src/Execution/Stages.antt =====
-- Every signal that kalshi_agent/execution.py handles to the end leaves one decision.
use kalshi_agent.Base.{
  ℕ, ◌+◌, ◌≤◌, ◌≡◌, refl, Bool, true, false, Option, none, some, String, length, length-append,
  arith, Bool-cases, inl, inr,
}
use kalshi_agent.Decimal.{Decimal}
use kalshi_agent.Result.{Result, ok, err}
use kalshi_agent.Wire.{
  Market, OrderRequest, OrderResponse, price_str_to_decimal, price_decimal_to_str,
}
use kalshi_agent.Config.{Config}
use kalshi_agent.Storage.{
  Db, Rejection, signal_expired, signal_expired_preflight, market_fetch_failed, no_ask_price,
  zero_bankroll, market_not_active, risk_rejected,
}
use kalshi_agent.Risk.{RiskDecision, check_trade}
use kalshi_agent.Bankroll
use kalshi_agent.Signal.{Signal}
use kalshi_agent.Execution.{
  Agent, Inputs, Handled, is_taken, persist_decision, reject, note_error, update_order, after_send,
  submit, place_order, after_check, with_bankroll, with_price, with_market, handle_signal,
  trade_request, books_of, ask_of,
}

-- The call has added one decision if it returned, and at most one if it raised.
abbrev pub Records : ℕ → Handled → Type 0
Records n h =
    (h.result ≡ ok tt → length h.agent.db.decisions ≡ n + 1)
    × (n ≤ length h.agent.db.decisions)
    × (length h.agent.db.decisions ≤ n + 1)

persist_records :
    (s : Signal) (accepted : Bool) (r : Option Rejection) (oid : Option ℕ) (now : ℕ) (db : Db)
    → length (persist_decision s accepted r oid now db).1.decisions ≡ length db.decisions + 1
unfolding persist_decision
persist_records s accepted r oid now db = length-append db.decisions _

reject-Records :
    (s : Signal) (r : Rejection) (now : ℕ) (a : Agent)
    → Records (length a.db.decisions) (reject s r now a)
unfolding reject
reject-Records s r now a = ground (arith, persist_records s false (some r) none now a.db)

after_send_records :
    (cfg : Config) (i : Inputs) (req : OrderRequest) (a : Agent) (answer : Result OrderResponse)
    → length (after_send cfg i req a answer).agent.db.decisions ≡ length a.db.decisions
unfolding after_send update_order note_error
after_send_records cfg i req a (ok resp) = refl
after_send_records cfg i req a (err e) = ground arith

submit_records :
    (cfg : Config) (i : Inputs) (s : Signal) (n id : ℕ) (a : Agent) (text : Result Decimal)
    → length (submit cfg i s n id a text).agent.db.decisions ≡ length a.db.decisions
unfolding submit
submit_records cfg i s n id a (err e) = refl
submit_records cfg i s n id a (ok text) =
    elim (Bool-cases (is_taken i.client_order_id a.db.orders)) [
      | inl q ↦ rw q refl
      | inr q ↦ rw q (after_send_records cfg i _ _ i.order)
    ]

place_order-Records :
    (cfg : Config) (i : Inputs) (s : Signal) (n : ℕ) (price : Decimal) (a : Agent)
    → Records (length a.db.decisions) (place_order cfg i s n price a)
unfolding place_order
place_order-Records cfg i s n price a =
    let kept = persist_decision s true none (some i.client_order_id) i.now.utc a.db in
    ground (
      arith,
      persist_records s true none (some i.client_order_id) i.now.utc a.db,
      submit_records cfg i s n kept.0 (record a { db = kept.1 }) (price_decimal_to_str price),
    )

after_check-Records :
    (cfg : Config) (i : Inputs) (s : Signal) (price : Decimal) (a : Agent) (r : Result RiskDecision)
    → Records (length a.db.decisions) (after_check cfg i s price a r)
unfolding after_check
after_check-Records cfg i s price a (err e) = ground arith
after_check-Records cfg i s price a (ok d) = ground (
  arith,
  reject-Records s risk_rejected i.now.utc a,
  reject-Records s signal_expired_preflight i.preflight a,
  place_order-Records cfg i s d.sized_contracts price a,
)

module _ (lower : String → String) (cfg : Config) (i : Inputs) (s : Signal) where
  with_bankroll-Records :
      (m : Market) (price : Decimal) (a : Agent) (r : Result Decimal)
      → Records (length a.db.decisions) (with_bankroll lower cfg i s m price a r)
  unfolding with_bankroll
  with_bankroll-Records m price a (err e) = ground arith
  with_bankroll-Records m price a (ok b) =
      let checked =
        check_trade lower cfg i.now (books_of a.db) a.monitor (trade_request s m price b) a.kill in
      ground (
        arith,
        reject-Records s zero_bankroll i.now.utc a,
        after_check-Records cfg i s price (record a { kill = checked.1 }) checked.0,
      )

  with_price-Records :
      (m : Market) (a : Agent) (r : Result Decimal)
      → Records (length a.db.decisions) (with_price lower cfg i s m a r)
  unfolding with_price
  with_price-Records m a (err e) = ground arith
  with_price-Records m a (ok price) =
      let fetched = Bankroll.get i.now.monotonic i.balance a.bankroll in
      with_bankroll-Records m price (record a { bankroll = fetched.1 }) fetched.0

  with_market-Records :
      (a : Agent) (r : Result Market)
      → Records (length a.db.decisions) (with_market lower cfg i s a r)
  unfolding with_market note_error
  with_market-Records a (err e) =
      ground (arith, reject-Records s market_fetch_failed i.now.utc (note_error cfg i.now a))
  with_market-Records a (ok m) = ground (
    arith,
    reject-Records s (market_not_active m.status) i.now.utc a,
    reject-Records s no_ask_price i.now.utc a,
    with_price-Records m a (price_str_to_decimal (ask_of s.side m)),
  )

  -- A signal that is handled to its end leaves exactly one decision, accepted or rejected; one that
  -- raises leaves at most one.
  pub one_decision_per_signal :
      (a : Agent) → Records (length a.db.decisions) (handle_signal lower cfg i s a)
  unfolding handle_signal
  one_decision_per_signal a =
      ground (arith, reject-Records s signal_expired i.now.utc a, with_market-Records a i.market)
