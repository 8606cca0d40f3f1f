-- ===== src/Recovery.antt =====
-- kalshi_agent/recovery.py: the pending orders that a restart finds. The answers of the three calls
-- of `list_orders` come as arguments; raw responses, messages and the Discord post are left out. A
-- client order id that is missing or empty is `none`.
pub mod Accounts
use kalshi_agent.Base.{
  ℕ, zero, suc, ◌+◌, Bool, true, false, not, ◌&&◌, ◌||◌, Option, none, some, String, List, [], ◌∷◌,
  ◌++◌, count_if, last_where, ◌==◌, if◌then◌else◌,
}
use text.Mathlib.Text.{◌==◌ as str_eq}
use kalshi_agent.Result.{Exn, Result, ok, err, api_error, ◌>>=◌}
use kalshi_agent.Wire.{OrderResponse}
use kalshi_agent.Storage.{Db, Order, Event, Level, info, warning, recovery_event}

abbrev pub has_client_id : ℕ → OrderResponse → Bool
has_client_id coid r = elim r.client_order_id [ none ↦ false | some c ↦ c == coid ]

abbrev pub has_order_id : ℕ → OrderResponse → Bool
has_order_id kid r = r.order_id == kid

-- `remote_by_client_id.get(coid)` and `remote_by_order_id.get(kid)`: of the orders with an id the
-- last one stands in the dictionary.
abbrev pub by_client_id : ℕ → List OrderResponse → Option OrderResponse
by_client_id coid remote = last_where (has_client_id coid) remote

abbrev pub by_kalshi_id : Option ℕ → List OrderResponse → Option OrderResponse
by_kalshi_id none remote = none
by_kalshi_id (some kid) remote = last_where (has_order_id kid) remote

abbrev pub first_match : Option OrderResponse → Option OrderResponse → Option OrderResponse
first_match (some r) _ = some r
first_match none other = other

-- The remote order that a local one is matched with.
unfoldable pub match_order : Order → List OrderResponse → Option OrderResponse
match_order o remote =
    first_match (by_client_id o.client_order_id remote) (by_kalshi_id o.kalshi_order_id remote)

abbrev pub is_pending : Order → Bool
is_pending o = str_eq o.status "pending"

-- The rows, the events and the counts that the loop leaves.
pub record Recovered : Type 0 where
  pub orders : List Order
  pub events : List Event
  pub recovered : ℕ
  pub lost : ℕ

-- The body of the loop, on the order and its match.
unfoldable pub recover_row : Order → Option OrderResponse → Recovered → Recovered
recover_row o (some r) rest = record {
  orders = record o { kalshi_order_id = some r.order_id; status = r.status } ∷ rest.orders;
  events = record { kind = recovery_event; level = info } ∷ rest.events;
  recovered = suc rest.recovered;
  lost = rest.lost;
}
recover_row o none rest = record {
  orders = record o { status = "lost" } ∷ rest.orders;
  events = record { kind = recovery_event; level = warning } ∷ rest.events;
  recovered = rest.recovered;
  lost = suc rest.lost;
}

unfoldable pub recover_rows : List OrderResponse → List Order → Recovered
recover_rows remote [] = record { orders = []; events = []; recovered = 0; lost = 0 }
recover_rows remote (o ∷ os) =
    let rest = recover_rows remote os in
    if is_pending o
    then recover_row o (match_order o remote) rest
    else record rest { orders = o ∷ rest.orders }

-- What `recover_in_flight_orders` returns.
pub record Summary : Type 0 where
  pub pending : ℕ
  pub recovered : ℕ
  pub lost : ℕ
  pub failed : Bool

-- The three lists, or the first exception that a call raised.
unfoldable pub list_all :
    Result (List OrderResponse)
    → Result (List OrderResponse)
    → Result (List OrderResponse)
    → Result (List OrderResponse)
list_all resting executed canceled =
    resting >>= λ a. executed >>= λ b. canceled >>= λ c. ok (a ++ b ++ c)

-- Behind the three calls; only a KalshiAPIError is handled.
unfoldable pub after_listing : ℕ → Result (List OrderResponse) → Db → Result Summary × Db
after_listing pending (ok remote) db =
    let done = recover_rows remote db.orders in
    (
      ok (record {
        pending = pending;
        recovered = done.recovered;
        lost = done.lost;
        failed = false;
      }),
      record db { orders = done.orders; events = db.events ++ done.events },
    )
after_listing pending (err api_error) db =
    (ok (record { pending = pending; recovered = 0; lost = 0; failed = true }), db)
after_listing pending (err e) db = (err e, db)

unfoldable pub recover_in_flight_orders :
    Result (List OrderResponse)
    → Result (List OrderResponse)
    → Result (List OrderResponse)
    → Db
    → Result Summary × Db
recover_in_flight_orders resting executed canceled db =
    after_listing (count_if is_pending db.orders) (list_all resting executed canceled) db
