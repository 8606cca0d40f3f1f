-- ===== src/Execution.antt =====
-- kalshi_agent/execution.py: a signal on its way to an order. What a call reads from outside (the
-- clocks, the answers of Kalshi, the fresh uuid) comes as `Inputs`. Logs, Discord posts and raw
-- responses are left out, and the lock is the reconciler's.
pub mod Stages
pub mod Orders
pub mod Rows
pub mod Halted
pub mod Phases
pub mod InFlight
pub mod Unfilled
use kalshi_agent.Base.{
  ℕ, ◌+◌, Bool, true, false, not, ◌&&◌, ◌||◌, Option, none, some, String, List, [], ◌∷◌, ◌++◌,
  length, any, or_default, update_where, ◌==◌, if◌then◌else◌,
}
use text.Mathlib.Text.{◌==◌ as str_eq}
use kalshi_agent.Side.{Side, yes_side, no_side, buy}
use kalshi_agent.Decimal.{Decimal, of_ℕ, leb_D}
use kalshi_agent.Result.{Exn, Result, ok, err, api_error, auth_error, integrity_error}
use kalshi_agent.Wire.{
  PriceText, absent, Market, OrderRequest, OrderResponse, price_str_to_decimal,
  price_decimal_to_str,
}
use kalshi_agent.Config.{Config}
use kalshi_agent.Storage.{
  Db, Ledger, Order, Decision, Rejection, signal_expired, signal_expired_preflight,
  market_fetch_failed, no_ask_price, zero_bankroll, market_not_active, risk_rejected,
}
use kalshi_agent.KillSwitch.{Switch}
use kalshi_agent.Risk.{
  Monitor, Now, Books, RiskDecision, TradeRequest, check_trade, record_error, record_order_attempt,
}
use kalshi_agent.Bankroll
use kalshi_agent.Bankroll.{Bankroll}
use kalshi_agent.Signal.{Signal, is_expired}

-- The state that the executor and its parts share.
pub record Agent : Type 0 where
  pub db : Db
  pub kill : Switch
  pub monitor : Monitor
  pub bankroll : Bankroll

pub record Inputs : Type 0 where
  pub now : Now
  pub preflight : ℕ
  pub market : Result Market
  pub balance : Result PriceText
  pub client_order_id : ℕ
  pub order : Result OrderResponse

-- How a call ends: the order request that it has sent, if any, and what it returns or raises.
pub record Handled : Type 0 where
  pub sent : Option OrderRequest
  pub result : Result (Unit {0})
  pub agent : Agent

abbrev pub returns : Agent → Handled
returns a = record { sent = none; result = ok tt; agent = a }

abbrev pub raises : Exn → Agent → Handled
raises e a = record { sent = none; result = err e; agent = a }

abbrev decision_row : Signal → Option Rejection → Bool → Option ℕ → ℕ → ℕ → Decision
decision_row s reason accepted order_id now id = record {
  id = id;
  created_at = now;
  strategy = s.strategy_name;
  market_ticker = s.market_ticker;
  side = s.side;
  model_probability = s.model_probability;
  confidence = s.confidence;
  valid_until = s.valid_until;
  accepted = accepted;
  rejection_reason = reason;
  order_id = order_id;
}

-- `_persist_decision`; rows are never deleted, so the next id is the number of rows and one.
unfoldable pub persist_decision : Signal → Bool → Option Rejection → Option ℕ → ℕ → Db → ℕ × Db
persist_decision s accepted reason order_id now db =
    let id = length db.decisions + 1 in
    (
      id,
      record db { decisions = db.decisions ++ decision_row s reason accepted order_id now id ∷ [] },
    )

-- `_persist_decision(signal, accepted=False, reason=...)` and the return behind it.
unfoldable pub reject : Signal → Rejection → ℕ → Agent → Handled
reject s reason now a =
    let (id, db) = persist_decision s false (some reason) none now a.db in
    returns (record a { db = db })

-- `self._risk.record_error()`
unfoldable pub note_error : Config → Now → Agent → Agent
note_error cfg now a =
    let (m, k) = record_error cfg now.monotonic now.utc a.monitor a.kill in
    record a { monitor = m; kill = k }

abbrev pub is_kalshi_error : Exn → Bool
is_kalshi_error api_error = true
is_kalshi_error auth_error = true
is_kalshi_error _ = false

abbrev pub pending_order : Signal → ℕ → Decimal → ℕ → ℕ → ℕ → Order
pending_order s count price coid decision_id now = record {
  created_at = now;
  client_order_id = coid;
  kalshi_order_id = none;
  market_ticker = s.market_ticker;
  side = s.side;
  action = buy;
  count = count;
  price_dollars = price;
  status = "pending";
  decision_id = some decision_id;
}

abbrev pub price_for : Side → Side → Decimal → Option Decimal
price_for yes_side yes_side d = some d
price_for no_side no_side d = some d
price_for _ _ d = none

abbrev pub order_request : Signal → ℕ → Decimal → ℕ → OrderRequest
order_request s count price coid = record {
  ticker = s.market_ticker;
  side = s.side;
  action = buy;
  count_fp = count;
  yes_price_dollars = price_for yes_side s.side price;
  no_price_dollars = price_for no_side s.side price;
  client_order_id = coid;
}

-- The update of the one row with the client order id, which is unique in the table.
unfoldable pub update_order : ℕ → (Order → Order) → Db → Db
update_order coid f db = record db {
  orders = update_where (λ o. o.client_order_id == coid) f db.orders;
}

abbrev pub take_response : OrderResponse → Order → Order
take_response r o = record o { kalshi_order_id = some r.order_id; status = r.status }

-- The answer of `create_order`.
unfoldable pub after_send : Config → Inputs → OrderRequest → Agent → Result OrderResponse → Handled
after_send cfg i req a (ok resp) = record {
  sent = some req;
  result = ok tt;
  agent = record a { db = update_order i.client_order_id (take_response resp) a.db };
}
after_send cfg i req a (err e) =
    let b = note_error cfg i.now a in
    if is_kalshi_error e
    then record {
      sent = some req;
      result = ok tt;
      agent = record b {
        db = update_order i.client_order_id (λ o. record o { status = "send_failed" }) b.db;
      };
    }
    else record { sent = some req; result = err e; agent = a }

-- A client order id is unique in the table.
abbrev pub is_taken : ℕ → List Order → Bool
is_taken coid os = any (λ o. o.client_order_id == coid) os

-- The order row, the attempt and the request, on the text of the price; the commit of a row whose
-- client order id is taken raises.
unfoldable pub submit : Config → Inputs → Signal → ℕ → ℕ → Agent → Result Decimal → Handled
submit cfg i s count decision_id a (err e) = raises e a
submit cfg i s count decision_id a (ok text) =
    let row = pending_order s count text i.client_order_id decision_id i.now.utc in
    let a' : Agent = record a {
      db = record (a.db) { orders = a.db.orders ++ row ∷ [] };
      monitor = record_order_attempt i.now.monotonic a.monitor;
    } in
    if is_taken i.client_order_id a.db.orders
    then raises integrity_error a
    else after_send cfg i (order_request s count text i.client_order_id) a' i.order

-- From the accepted decision to the answer of Kalshi.
unfoldable pub place_order : Config → Inputs → Signal → ℕ → Decimal → Agent → Handled
place_order cfg i s count price a =
    let (id, db) = persist_decision s true none (some i.client_order_id) i.now.utc a.db in
    submit cfg i s count id (record a { db = db }) (price_decimal_to_str price)

abbrev trade_request : Signal → Market → Decimal → Decimal → TradeRequest
trade_request s m price bankroll = record {
  market_ticker = s.market_ticker;
  side = s.side;
  model_probability = s.model_probability;
  current_price = price;
  confidence = s.confidence;
  bankroll_dollars = bankroll;
  market_category = m.category;
}

-- Behind the risk check.
unfoldable pub after_check :
    Config → Inputs → Signal → Decimal → Agent → Result RiskDecision → Handled
after_check cfg i s price a (err e) = raises e a
after_check cfg i s price a (ok d) =
    if not d.allowed
    then reject s risk_rejected i.now.utc a
    else if is_expired i.preflight s
    then reject s signal_expired_preflight i.preflight a
    else place_order cfg i s d.sized_contracts price a

abbrev pub books_of : Db → Books
books_of db = record { positions = db.ledger.positions; pnl_daily = db.pnl_daily }

abbrev pub is_open : (String → String) → Market → Bool
is_open lower m =
    str_eq (lower (or_default m.status "")) "active"
    || str_eq (lower (or_default m.status "")) "open"

abbrev pub ask_of : Side → Market → PriceText
ask_of yes_side m = m.yes_ask_dollars
ask_of no_side m = m.no_ask_dollars

abbrev pub has_text : PriceText → Bool
has_text absent = false
has_text _ = true

module _ (lower : String → String) (cfg : Config) (i : Inputs) (s : Signal) where
  -- Behind the bankroll.
  unfoldable pub with_bankroll : Market → Decimal → Agent → Result Decimal → Handled
  with_bankroll m price a (err e) = raises e a
  with_bankroll m price a (ok bankroll) =
      let (decision, kill) =
        check_trade lower cfg i.now (books_of a.db) a.monitor (trade_request s m price bankroll)
          a.kill in
      if leb_D bankroll (of_ℕ 0)
      then reject s zero_bankroll i.now.utc a
      else after_check cfg i s price (record a { kill = kill }) decision

  unfoldable pub with_price : Market → Agent → Result Decimal → Handled
  with_price m a (err e) = raises e a
  with_price m a (ok price) =
      let (bankroll, b) = Bankroll.get i.now.monotonic i.balance a.bankroll in
      with_bankroll m price (record a { bankroll = b }) bankroll

  unfoldable pub with_market : Agent → Result Market → Handled
  with_market a (ok m) =
      let ask = ask_of s.side m in
      if not (is_open lower m)
      then reject s (market_not_active m.status) i.now.utc a
      else if not (has_text ask)
      then reject s no_ask_price i.now.utc a
      else with_price m a (price_str_to_decimal ask)
  with_market a (err e) =
      if is_kalshi_error e
      then reject s market_fetch_failed i.now.utc (note_error cfg i.now a)
      else raises e a

  -- `_handle_signal_inner`
  unfoldable pub handle_signal : Agent → Handled
  handle_signal a =
      if is_expired i.now.utc s then reject s signal_expired i.now.utc a else with_market a i.market
