-- ===== src/Execution/Rows.antt =====
-- The order rows that kalshi_agent/execution.py leaves.
use kalshi_agent.Base.{
  ℕ, ◌≡◌, refl, ap, sym, ◌∙◌, Bool, true, false, not, none, some, String, List, [], ◌∷◌, ◌++◌,
  update_where, any, ◌==◌, if◌then◌else◌, inl, inr, Bool-cases, arith,
}
use kalshi_agent.Decimal.{Decimal, of_ℕ, leb_D}
use kalshi_agent.Result.{Result, ok, err}
use kalshi_agent.Wire.{
  Market, OrderRequest, OrderResponse, price_str_to_decimal, price_decimal_to_str,
}
use kalshi_agent.Config.{Config}
use kalshi_agent.Storage.{
  Order, Rejection, signal_expired, signal_expired_preflight, market_fetch_failed, no_ask_price,
  zero_bankroll, market_not_active, risk_rejected,
}
use kalshi_agent.Risk.{RiskDecision, check_trade}
use kalshi_agent.Bankroll
use kalshi_agent.Signal.{Signal, is_expired}
use kalshi_agent.Execution.Orders.{some_injective, sent-after_send}
use kalshi_agent.Execution.{
  Agent, Inputs, Handled, persist_decision, reject, note_error, after_send, submit, place_order,
  after_check, with_bankroll, with_price, with_market, handle_signal, trade_request, books_of,
  ask_of, is_open, has_text, order_request, update_order, take_response, is_kalshi_error,
  pending_order,
}

-- No order of the book has the id.
abbrev pub IsFresh : ℕ → List Order → Type 0
IsFresh coid os = any (λ o. o.client_order_id == coid) os ≡ false

-- What the answer of Kalshi makes of a pending row, and of the call.
abbrev pub answered : Result OrderResponse → Order → Order
answered (ok r) o = take_response r o
answered (err e) o = if is_kalshi_error e then record o { status = "send_failed" } else o

abbrev pub call_result : Result OrderResponse → Result (Unit {0})
call_result (ok r) = ok tt
call_result (err e) = if is_kalshi_error e then ok tt else err e

-- The book behind a call that sends the request: one row more, which stands for the request.
abbrev pub Entered : Inputs → List Order → Handled → OrderRequest → Type 0
Entered i os h req =
    (row : Order) × (row.status ≡ "pending")
    × (row.client_order_id ≡ req.client_order_id)
    × (row.market_ticker ≡ req.ticker)
    × (row.side ≡ req.side)
    × (row.count ≡ req.count_fp)
    × (h.agent.db.orders ≡ os ++ answered i.order row ∷ [])
    × (h.result ≡ call_result i.order)

abbrev pub RowsKept : Inputs → List Order → Handled → Type 0
RowsKept i os h =
    (h.sent ≡ none → h.agent.db.orders ≡ os)
    × ((req : OrderRequest) → h.sent ≡ some req → Entered i os h req)

update-append_last :
    (coid : ℕ) (f : Order → Order) (os : List Order) (o : Order)
    → IsFresh coid os
    → o.client_order_id ≡ coid
    → update_where (λ r. r.client_order_id == coid) f (os ++ o ∷ []) ≡ os ++ f o ∷ []
update-append_last coid f [] o fresh same = ground arith
update-append_last coid f (r ∷ os) o fresh same = ground (arith, update-append_last coid f os o)

some_not_none : {x : OrderRequest} → some x ≡ none → ⊥
some_not_none e = ground arith

reject-RowsKept :
    (i : Inputs) (s : Signal) (r : Rejection) (now : ℕ) (a : Agent)
    → RowsKept i a.db.orders (reject s r now a)
unfolding reject persist_decision
reject-RowsKept i s r now a = (λ _. refl, λ req e. absurd (ground arith))

orders-after_send :
    (cfg : Config) (i : Inputs) (req : OrderRequest) (row : Order) (a : Agent) (os : List Order)
    (answer : Result OrderResponse)
    → IsFresh i.client_order_id os
    → row.client_order_id ≡ i.client_order_id
    → a.db.orders ≡ os ++ row ∷ []
    → let h = after_send cfg i req a answer in
      (h.agent.db.orders ≡ os ++ answered answer row ∷ []) × (h.result ≡ call_result answer)
unfolding after_send update_order note_error
orders-after_send cfg i req row a os (ok r) fresh same added = (
  ap (update_where (λ o. o.client_order_id == i.client_order_id) (take_response r)) added
      ∙ update-append_last i.client_order_id (take_response r) os row fresh same,
  refl,
)
orders-after_send cfg i req row a os (err e) fresh same added =
    let failed = λ (o : Order). record o { status = "send_failed" } in
    let updated : update_where (λ o. o.client_order_id == i.client_order_id) failed a.db.orders
        ≡ os ++ failed row ∷ [] =
      ap (update_where (λ o. o.client_order_id == i.client_order_id) failed) added
      ∙ update-append_last i.client_order_id failed os row fresh same in
    elim (Bool-cases (is_kalshi_error e)) [
      | inl q ↦ rw q (updated, refl)
      | inr q ↦ rw q (added, refl)
    ]

submit-RowsKept :
    (cfg : Config) (i : Inputs) (s : Signal) (n id : ℕ) (a : Agent) (r : Result Decimal)
    → IsFresh i.client_order_id a.db.orders
    → RowsKept i a.db.orders (submit cfg i s n id a r)
unfolding submit
submit-RowsKept cfg i s n id a (err e) fresh = (λ _. refl, λ req h. absurd (ground arith))
submit-RowsKept cfg i s n id a (ok text) fresh =
    let row = pending_order s n text i.client_order_id id i.now.utc in
    let done =
      orders-after_send cfg i (order_request s n text i.client_order_id) row _ a.db.orders i.order
        fresh refl refl in
    rw fresh (
      λ h. absurd (some_not_none (sym (sent-after_send cfg i _ _ i.order) ∙ h)),
      λ req h.
          let same : req ≡ order_request s n text i.client_order_id =
            some_injective (sym h ∙ sent-after_send cfg i _ _ i.order) in
          rw same (row, refl, refl, refl, refl, refl, done.0, done.1),
    )

place_order-RowsKept :
    (cfg : Config) (i : Inputs) (s : Signal) (n : ℕ) (price : Decimal) (a : Agent)
    → IsFresh i.client_order_id a.db.orders
    → RowsKept i a.db.orders (place_order cfg i s n price a)
unfolding place_order persist_decision
place_order-RowsKept cfg i s n price a fresh =
    submit-RowsKept cfg i s n _
      (record a { db = (persist_decision s true none (some i.client_order_id) i.now.utc a.db).1 })
      (price_decimal_to_str price) fresh

if-RowsKept :
    (i : Inputs) (os : List Order) (b : Bool) (x y : Handled)
    → RowsKept i os x
    → RowsKept i os y
    → RowsKept i os (if b then x else y)
if-RowsKept i os true x y kept_x kept_y = kept_x
if-RowsKept i os false x y kept_x kept_y = kept_y

after_check-RowsKept :
    (cfg : Config) (i : Inputs) (s : Signal) (price : Decimal) (a : Agent) (r : Result RiskDecision)
    → IsFresh i.client_order_id a.db.orders
    → RowsKept i a.db.orders (after_check cfg i s price a r)
unfolding after_check
after_check-RowsKept cfg i s price a (err e) fresh = (λ _. refl, λ req h. absurd (ground arith))
after_check-RowsKept cfg i s price a (ok d) fresh =
    if-RowsKept i a.db.orders (not d.allowed) _ _ (reject-RowsKept i s risk_rejected i.now.utc a) (
      if-RowsKept i a.db.orders (is_expired i.preflight s) _ _
        (reject-RowsKept i s signal_expired_preflight i.preflight a)
        (place_order-RowsKept cfg i s d.sized_contracts price a fresh))

module _ (lower : String → String) (cfg : Config) (i : Inputs) (s : Signal) where
  with_bankroll-RowsKept :
      (m : Market) (price : Decimal) (a : Agent) (r : Result Decimal)
      → IsFresh i.client_order_id a.db.orders
      → RowsKept i a.db.orders (with_bankroll lower cfg i s m price a r)
  unfolding with_bankroll
  with_bankroll-RowsKept m price a (err e) fresh = (λ _. refl, λ req h. absurd (ground arith))
  with_bankroll-RowsKept m price a (ok b) fresh =
      let checked =
        check_trade lower cfg i.now (books_of a.db) a.monitor (trade_request s m price b) a.kill in
      if-RowsKept i a.db.orders (leb_D b (of_ℕ 0)) _ _
        (reject-RowsKept i s zero_bankroll i.now.utc a)
        (after_check-RowsKept cfg i s price (record a { kill = checked.1 }) checked.0 fresh)

  with_price-RowsKept :
      (m : Market) (a : Agent) (r : Result Decimal)
      → IsFresh i.client_order_id a.db.orders
      → RowsKept i a.db.orders (with_price lower cfg i s m a r)
  unfolding with_price
  with_price-RowsKept m a (err e) fresh = (λ _. refl, λ req h. absurd (ground arith))
  with_price-RowsKept m a (ok price) fresh =
      let fetched = Bankroll.get i.now.monotonic i.balance a.bankroll in
      with_bankroll-RowsKept m price (record a { bankroll = fetched.1 }) fetched.0 fresh

  with_market-RowsKept :
      (a : Agent) (r : Result Market)
      → IsFresh i.client_order_id a.db.orders
      → RowsKept i a.db.orders (with_market lower cfg i s a r)
  unfolding with_market note_error
  with_market-RowsKept a (err e) fresh =
      if-RowsKept i a.db.orders (is_kalshi_error e) _ _
        (reject-RowsKept i s market_fetch_failed i.now.utc (note_error cfg i.now a))
        (λ _. refl, λ req h. absurd (ground arith))
  with_market-RowsKept a (ok m) fresh =
      if-RowsKept i a.db.orders (not (is_open lower m)) _ _
        (reject-RowsKept i s (market_not_active m.status) i.now.utc a)
        (if-RowsKept i a.db.orders (not (has_text (ask_of s.side m))) _ _
          (reject-RowsKept i s no_ask_price i.now.utc a)
          (with_price-RowsKept m a (price_str_to_decimal (ask_of s.side m)) fresh))

  -- With a fresh client order id, a call that sends no order leaves the order rows as they are. One
  -- that sends an order adds one row for it, with the id and the status of Kalshi's answer, or as
  -- "send_failed" where the answer is an API or an authentication error; where it is another
  -- exception, the call raises it and the row stays pending.
  pub handle_signal-RowsKept :
      (a : Agent)
      → IsFresh i.client_order_id a.db.orders
      → RowsKept i a.db.orders (handle_signal lower cfg i s a)
  unfolding handle_signal
  handle_signal-RowsKept a fresh =
      if-RowsKept i a.db.orders (is_expired i.now.utc s) _ _
        (reject-RowsKept i s signal_expired i.now.utc a) (with_market-RowsKept a i.market fresh)
