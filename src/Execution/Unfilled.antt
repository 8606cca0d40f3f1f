-- ===== src/Execution/Unfilled.antt =====
-- What kalshi_agent/execution.py leaves to the ingestion of fills: the books that the risk monitor
-- reads.
use kalshi_agent.Base.{ℕ, ◌≡◌, refl, String, arith, Bool-cases, inl, inr}
use kalshi_agent.Decimal.{Decimal}
use kalshi_agent.Result.{Result, ok, err}
use kalshi_agent.Wire.{
  Market, OrderRequest, OrderResponse, price_str_to_decimal, price_decimal_to_str,
}
use kalshi_agent.Config.{Config}
use kalshi_agent.Storage.{
  Rejection, signal_expired, signal_expired_preflight, market_fetch_failed, no_ask_price,
  zero_bankroll, market_not_active, risk_rejected,
}
use kalshi_agent.Risk.{Books, RiskDecision, check_trade}
use kalshi_agent.Bankroll
use kalshi_agent.Signal.{Signal}
use kalshi_agent.Execution.{
  Agent, Inputs, Handled, is_taken, persist_decision, reject, note_error, update_order, after_send,
  submit, place_order, after_check, with_bankroll, with_price, with_market, handle_signal,
  trade_request, books_of, ask_of,
}

-- The call has left the positions and the daily figures as they were.
abbrev Keeps : Books → Handled → Type 0
Keeps b h = books_of h.agent.db ≡ b

reject-Keeps :
    (s : Signal) (r : Rejection) (now : ℕ) (a : Agent) → Keeps (books_of a.db) (reject s r now a)
unfolding reject persist_decision
reject-Keeps s r now a = refl

after_send-Keeps :
    (cfg : Config) (i : Inputs) (req : OrderRequest) (a : Agent) (answer : Result OrderResponse)
    → Keeps (books_of a.db) (after_send cfg i req a answer)
unfolding after_send update_order note_error
after_send-Keeps cfg i req a (ok resp) = refl
after_send-Keeps cfg i req a (err e) = ground arith

submit-Keeps :
    (cfg : Config) (i : Inputs) (s : Signal) (n id : ℕ) (a : Agent) (text : Result Decimal)
    → Keeps (books_of a.db) (submit cfg i s n id a text)
unfolding submit
submit-Keeps cfg i s n id a (err e) = refl
submit-Keeps cfg i s n id a (ok text) = elim (Bool-cases (is_taken i.client_order_id a.db.orders)) [
  | inl q ↦ rw q refl
  | inr q ↦ rw q (after_send-Keeps cfg i _ _ i.order)
]

place_order-Keeps :
    (cfg : Config) (i : Inputs) (s : Signal) (n : ℕ) (price : Decimal) (a : Agent)
    → Keeps (books_of a.db) (place_order cfg i s n price a)
unfolding place_order persist_decision
place_order-Keeps cfg i s n price a = submit-Keeps cfg i s n _ _ (price_decimal_to_str price)

after_check-Keeps :
    (cfg : Config) (i : Inputs) (s : Signal) (price : Decimal) (a : Agent) (r : Result RiskDecision)
    → Keeps (books_of a.db) (after_check cfg i s price a r)
unfolding after_check
after_check-Keeps cfg i s price a (err e) = refl
after_check-Keeps cfg i s price a (ok d) = ground (
  arith,
  reject-Keeps s risk_rejected i.now.utc a,
  reject-Keeps s signal_expired_preflight i.preflight a,
  place_order-Keeps cfg i s d.sized_contracts price a,
)

module _ (lower : String → String) (cfg : Config) (i : Inputs) (s : Signal) where
  with_bankroll-Keeps :
      (m : Market) (price : Decimal) (a : Agent) (r : Result Decimal)
      → Keeps (books_of a.db) (with_bankroll lower cfg i s m price a r)
  unfolding with_bankroll
  with_bankroll-Keeps m price a (err e) = refl
  with_bankroll-Keeps m price a (ok b) =
      let checked =
        check_trade lower cfg i.now (books_of a.db) a.monitor (trade_request s m price b) a.kill in
      ground (
        arith,
        reject-Keeps s zero_bankroll i.now.utc a,
        after_check-Keeps cfg i s price (record a { kill = checked.1 }) checked.0,
      )

  with_price-Keeps :
      (m : Market) (a : Agent) (r : Result Decimal)
      → Keeps (books_of a.db) (with_price lower cfg i s m a r)
  unfolding with_price
  with_price-Keeps m a (err e) = refl
  with_price-Keeps m a (ok price) =
      let fetched = Bankroll.get i.now.monotonic i.balance a.bankroll in
      with_bankroll-Keeps m price (record a { bankroll = fetched.1 }) fetched.0

  with_market-Keeps :
      (a : Agent) (r : Result Market) → Keeps (books_of a.db) (with_market lower cfg i s a r)
  unfolding with_market note_error
  with_market-Keeps a (err e) =
      ground (arith, reject-Keeps s market_fetch_failed i.now.utc (note_error cfg i.now a))
  with_market-Keeps a (ok m) = ground (
    arith,
    reject-Keeps s (market_not_active m.status) i.now.utc a,
    reject-Keeps s no_ask_price i.now.utc a,
    with_price-Keeps m a (price_str_to_decimal (ask_of s.side m)),
  )

  -- A signal leaves the books that the risk monitor reads as they are, also where it sends an order.
  pub books-handle_signal :
      (a : Agent) → books_of (handle_signal lower cfg i s a).agent.db ≡ books_of a.db
  unfolding handle_signal
  books-handle_signal a =
      ground (arith, reject-Keeps s signal_expired i.now.utc a, with_market-Keeps a i.market)
