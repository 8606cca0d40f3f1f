-- ===== src/Execution/Orders.antt =====
-- What holds of the orders that kalshi_agent/execution.py sends.
use kalshi_agent.Base.{
  ℕ, ◌≡◌, refl, true, false, none, some, String, arith, ap, sym, ◌∙◌, or_default, Bool-cases, inl,
  inr,
}
use kalshi_agent.Decimal.{Decimal, of_ℕ, leb_D}
use kalshi_agent.Result.{Result, ok, err}
use kalshi_agent.Wire.{
  Market, OrderRequest, OrderResponse, price_str_to_decimal, price_decimal_to_str,
}
use kalshi_agent.Config.{Config}
use kalshi_agent.Storage.{
  Rejection, signal_expired, signal_expired_preflight, market_fetch_failed, no_ask_price,
  zero_bankroll, market_not_active, risk_rejected,
}
use kalshi_agent.Risk.{RiskDecision, check_trade}
use kalshi_agent.Risk.Guards.{allowed_trade_guards}
use kalshi_agent.Bankroll
use kalshi_agent.Signal.{Signal, is_expired}
use kalshi_agent.Execution.{
  Agent, Inputs, is_taken, persist_decision, reject, note_error, after_send, submit, place_order,
  after_check, with_bankroll, with_price, with_market, handle_signal, trade_request, books_of,
  ask_of, is_open, order_request,
}

pub none_sent : (s : Signal) (r : Rejection) (now : ℕ) (a : Agent) → (reject s r now a).sent ≡ none
unfolding reject
none_sent s r now a = refl

pub some_injective : {x y : OrderRequest} → some x ≡ some y → x ≡ y
some_injective {x} e = ap (λ o. or_default o x) e

pub sent-after_send :
    (cfg : Config) (i : Inputs) (req : OrderRequest) (a : Agent) (answer : Result OrderResponse)
    → (after_send cfg i req a answer).sent ≡ some req
unfolding after_send
sent-after_send cfg i req a (ok r) = refl
sent-after_send cfg i req a (err e) = ground arith

-- The order is for the given number of contracts at the price that is asked, printed with four
-- decimals.
abbrev Ordered : Inputs → Signal → ℕ → Decimal → OrderRequest → Type 0
Ordered i s n price req =
    (text : Decimal) × (price_decimal_to_str price ≡ ok text)
    × (req ≡ order_request s n text i.client_order_id)

sent-submit :
    (cfg : Config) (i : Inputs) (s : Signal) (n id : ℕ) (a : Agent) (r : Result Decimal)
    (req : OrderRequest)
    → (submit cfg i s n id a r).sent ≡ some req
    → (text : Decimal) × (r ≡ ok text) × (req ≡ order_request s n text i.client_order_id)
unfolding submit
sent-submit cfg i s n id a (err e) req h = absurd (ground arith)
sent-submit cfg i s n id a (ok text) req h =
    elim (Bool-cases (is_taken i.client_order_id a.db.orders)) [
      | inl q ↦ absurd (ground arith)
      | inr q ↦
          let sent = rw q at h in
          (text, refl, some_injective (sym sent ∙ sent-after_send cfg i _ _ i.order))
    ]

-- The stages behind the risk check let the decision through.
abbrev Released : Inputs → Signal → Decimal → Result RiskDecision → OrderRequest → Type 0
Released i s price r req =
    (d : RiskDecision) × (r ≡ ok d)
    × (d.allowed ≡ true)
    × (is_expired i.preflight s ≡ false)
    × Ordered i s d.sized_contracts price req

sent-after_check :
    (cfg : Config) (i : Inputs) (s : Signal) (price : Decimal) (a : Agent) (r : Result RiskDecision)
    (req : OrderRequest)
    → (after_check cfg i s price a r).sent ≡ some req
    → Released i s price r req
unfolding after_check place_order
sent-after_check cfg i s price a (err e) req h = absurd (ground arith)
sent-after_check cfg i s price a (ok d) req h =
    let kept = persist_decision s true none (some i.client_order_id) i.now.utc a.db in
    let placed : (d.allowed ≡ true)
        × (is_expired i.preflight s ≡ false)
        × ((submit cfg i s d.sized_contracts kept.0 (record a { db = kept.1 })
              (price_decimal_to_str price)).sent
            ≡ some req) =
      ground (
        arith,
        none_sent s risk_rejected i.now.utc a,
        none_sent s signal_expired_preflight i.preflight a,
      ) in
    let (text, printed, same) =
      sent-submit cfg i s d.sized_contracts kept.0 (record a { db = kept.1 })
        (price_decimal_to_str price) req placed.2 in
    (d, refl, placed.0, placed.1, (text, printed, same))

module _ (lower : String → String) (cfg : Config) (i : Inputs) (s : Signal) where
  -- The order is one that the risk check has allowed, with the kill switch off, on a bankroll above
  -- 0 and before the signal expires, for the number of contracts of the decision.
  abbrev pub Checked : Agent → Market → Decimal → Decimal → OrderRequest → Type 0
  Checked a m price bankroll req =
      (leb_D bankroll (of_ℕ 0) ≡ false)
      × (a.kill ≡ none)
      × (d : RiskDecision) × (check_trade lower cfg i.now (books_of a.db) a.monitor
            (trade_request s m price bankroll) a.kill
          ≡ (ok d, none))
      × (d.allowed ≡ true)
      × (is_expired i.preflight s ≡ false)
      × Ordered i s d.sized_contracts price req

  sent-with_bankroll :
      (m : Market) (price : Decimal) (a : Agent) (r : Result Decimal) (req : OrderRequest)
      → (with_bankroll lower cfg i s m price a r).sent ≡ some req
      → (bankroll : Decimal) × (r ≡ ok bankroll) × Checked a m price bankroll req
  unfolding with_bankroll
  sent-with_bankroll m price a (err e) req h = absurd (ground arith)
  sent-with_bankroll m price a (ok bankroll) req h =
      let t = trade_request s m price bankroll in
      let checked = check_trade lower cfg i.now (books_of a.db) a.monitor t a.kill in
      let reached : (leb_D bankroll (of_ℕ 0) ≡ false)
          × ((after_check cfg i s price (record a { kill = checked.1 }) checked.0).sent
              ≡ some req) =
        ground (arith, none_sent s zero_bankroll i.now.utc a) in
      let (d, same, allowed, alive, ordered) =
        sent-after_check cfg i s price (record a { kill = checked.1 }) checked.0 req reached.1 in
      let e : checked ≡ (ok d, checked.1) = ap (λ x. (x, checked.1)) same in
      let guards =
        allowed_trade_guards lower cfg i.now (books_of a.db) a.monitor t a.kill checked.1 d e
          allowed in
      (
        bankroll,
        refl,
        (reached.0, guards.0, d, e ∙ ap (λ k. (ok d, k)) guards.1, allowed, alive, ordered),
      )

  sent-with_price :
      (m : Market) (a : Agent) (r : Result Decimal) (req : OrderRequest)
      → (with_price lower cfg i s m a r).sent ≡ some req
      → (price : Decimal) × (r ≡ ok price)
        × (bankroll : Decimal) × ((Bankroll.get i.now.monotonic i.balance a.bankroll).0
            ≡ ok bankroll)
        × Checked a m price bankroll req
  unfolding with_price
  sent-with_price m a (err e) req h = absurd (ground arith)
  sent-with_price m a (ok price) req h =
      let fetched = Bankroll.get i.now.monotonic i.balance a.bankroll in
      let (bankroll, got, checked) =
        sent-with_bankroll m price (record a { bankroll = fetched.1 }) fetched.0 req h in
      (price, refl, bankroll, got, checked)

  -- The order buys the side of the signal at what the open market asks for it.
  abbrev pub Priced : Agent → Market → OrderRequest → Type 0
  Priced a m req =
      (is_open lower m ≡ true)
      × (price : Decimal) × (price_str_to_decimal (ask_of s.side m) ≡ ok price)
      × (bankroll : Decimal) × ((Bankroll.get i.now.monotonic i.balance a.bankroll).0 ≡ ok bankroll)
      × Checked a m price bankroll req

  sent-with_market :
      (a : Agent) (r : Result Market) (req : OrderRequest)
      → (with_market lower cfg i s a r).sent ≡ some req
      → (m : Market) × (r ≡ ok m) × Priced a m req
  unfolding with_market
  sent-with_market a (err e) req h =
      absurd (ground (arith, none_sent s market_fetch_failed i.now.utc (note_error cfg i.now a)))
  sent-with_market a (ok m) req h =
      let reached : (is_open lower m ≡ true)
          × ((with_price lower cfg i s m a (price_str_to_decimal (ask_of s.side m))).sent
              ≡ some req) =
        ground (
          arith,
          none_sent s (market_not_active m.status) i.now.utc a,
          none_sent s no_ask_price i.now.utc a,
        ) in
      let (price, asked, bankroll, got, checked) =
        sent-with_price m a (price_str_to_decimal (ask_of s.side m)) req reached.1 in
      (m, refl, (reached.0, price, asked, bankroll, got, checked))

  -- An order is sent only for a signal that has not expired, on an open market, with the kill switch
  -- off and a bankroll above 0, after the risk check has allowed the trade and before the signal
  -- expires; it is for the number of contracts that the check gives, at the ask of the side of the
  -- signal.
  pub sent_order_was_checked :
      (a : Agent) (req : OrderRequest)
      → (handle_signal lower cfg i s a).sent ≡ some req
      → (is_expired i.now.utc s ≡ false) × (m : Market) × (i.market ≡ ok m) × Priced a m req
  unfolding handle_signal
  sent_order_was_checked a req h =
      let reached : (is_expired i.now.utc s ≡ false)
          × ((with_market lower cfg i s a i.market).sent ≡ some req) =
        ground (arith, none_sent s signal_expired i.now.utc a) in
      let (m, fetched, priced) = sent-with_market a i.market req reached.1 in
      (reached.0, m, fetched, priced)
