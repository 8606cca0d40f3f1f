-- ===== src/Tests/Kalshi.antt =====
-- The recovery, the halt monitor and the client at concrete inputs.
use kalshi_agent.Base.{
  ℕ, ◌+◌, ◌≤◌, ◌≡◌, ◌≢◌, refl, true, false, none, some, List, [], ◌∷◌, length, count_if, last_where,
  arith, ◌==◌, if◌then◌else◌,
}
use kalshi_agent.Side.{yes_side, buy}
use kalshi_agent.Decimal.{dec}
use kalshi_agent.Result.{Exn, Result, ok, err, api_error, auth_error, http_error}
use kalshi_agent.Wire.{OrderResponse}
use kalshi_agent.Storage.{Db, Order, info, warning, recovery_event}
use kalshi_agent.KillSwitch.{Switch, unreadable}
use kalshi_agent.Recovery.{
  is_pending, match_order, recover_row, recover_rows, Summary, list_all, after_listing,
  recover_in_flight_orders,
}
use kalshi_agent.Recovery.Accounts.{Fates, recovery_accounts}
use kalshi_agent.Halt.{Watch}
use kalshi_agent.Client.{
  Attempt, reply, transport_failure, request, attempt_loop, after_step, step, cancel_all_resting,
}
use kalshi_agent.Client.Retry.{is_final, meaning, request_result}
use kalshi_agent.Client.Cancel.{every_resting_tried}
use kalshi_agent.Tests.Samples.{db, response}

abbrev pending : ℕ → Order
pending coid = record {
  created_at = 0;
  client_order_id = coid;
  kalshi_order_id = none;
  market_ticker = 7;
  side = yes_side;
  action = buy;
  count = 10;
  price_dollars = dec 5000 4;
  status = "pending";
  decision_id = none;
}

-- One pending order that Kalshi has executed, and one that it does not know.
abbrev interrupted : Db
interrupted = record db { orders = pending 555 ∷ pending 556 ∷ [] }

abbrev recovered_db : Db
recovered_db = record db {
  orders =
      record (pending 555) { kalshi_order_id = some 91; status = "executed" }
      ∷ record (pending 556) { status = "lost" }
      ∷ [];
  events =
      record { kind = recovery_event; level = info }
      ∷ record { kind = recovery_event; level = warning }
      ∷ [];
}

abbrev summary : Summary
summary = record { pending = 2; recovered = 1; lost = 1; failed = false }

interrupted_recovered :
    recover_in_flight_orders (ok []) (ok (response ∷ [])) (ok []) interrupted
    ≡ (ok summary, recovered_db)
unfolding recover_in_flight_orders list_all after_listing recover_rows recover_row match_order
    last_where
interrupted_recovered = refl

interrupted_accounts :
    Fates (response ∷ []) interrupted.orders recovered_db.orders
    × (2 ≡ count_if is_pending interrupted.orders)
    × (1 + 1 ≡ 2)
    × (length recovered_db.events ≡ 0 + 2)
    × (false ≡ false)
interrupted_accounts =
    recovery_accounts [] (response ∷ []) [] interrupted recovered_db summary interrupted_recovered

abbrev watch : Watch
watch = record { last_state = false; db = interrupted }

-- The switch is engaged, stays so, and is lifted.
abbrev rounds : List (Switch × Result ℕ)
rounds = (some unreadable, err http_error) ∷ (some unreadable, ok 0) ∷ (none, ok 0) ∷ []

-- A server error, a rate limit, and then the body 17.
abbrev calls : ℕ → Attempt ℕ
calls n = if n == 0 then transport_failure else if n == 1 then reply 429 0 else reply 503 0

third_reply :
    (is_final transport_failure ≡ true → request calls ≡ (meaning transport_failure, 1))
    × (is_final transport_failure ≡ false
        → is_final (reply 429 0) ≡ true
        → request calls ≡ (meaning (reply 429 0), 2))
    × (is_final transport_failure ≡ false
        → is_final (reply 429 0) ≡ false
        → is_final (reply 503 0) ≡ true
        → request calls ≡ (meaning (reply 503 0), 3))
    × (is_final transport_failure ≡ false
        → is_final (reply 429 0) ≡ false
        → is_final (reply 503 0) ≡ false
        → request calls ≡ (err api_error, 3))
third_reply = request_result calls

-- Behind a failure in transport, two rate limits leave that failure to be raised.
abbrev limited_calls : ℕ → Attempt ℕ
limited_calls n = if n == 0 then transport_failure else reply 429 0

limited_twice : request limited_calls ≡ (err http_error, 3)
unfolding request attempt_loop after_step step
limited_twice = refl

-- Order 91 is cancelled, and the others are refused.
abbrev cancel : ℕ → Result (Unit {0})
cancel n = if n == 91 then ok tt else if n == 92 then err api_error else err auth_error

cancelled_orders :
    (cancel_all_resting cancel (ok (response ∷ [])) ≡ ok 1)
    × (1 ≤ 1)
    × ((o : OrderResponse) (more : List OrderResponse) (e : Exn)
        → cancel o.order_id ≡ err e
        → e ≢ api_error
        → cancel_all_resting cancel (ok (response ∷ o ∷ more)) ≡ err e)
cancelled_orders = every_resting_tried cancel (response ∷ []) ((λ e q. absurd (ground arith)), tt)
