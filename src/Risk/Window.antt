-- ===== src/Risk/Window.antt =====
-- The counters of kalshi_agent/safety/risk_monitor.py: `_order_timestamps` and
-- `_error_timestamps`, deques of 200 readings of the monotonic clock, here newest first and in
-- microseconds.
use kalshi_agent.Base.{ℕ, zero, suc, ◌+◌, ◌*◌, List, [], ◌∷◌, count_if, leb, if◌then◌else◌}
use kalshi_agent.Config.{Config}
use kalshi_agent.KillSwitch.{Switch, engage, error_spike, risk_monitor}

pub record Monitor : Type 0 where
  pub order_timestamps : List ℕ
  pub error_timestamps : List ℕ

abbrev pub fresh_monitor : Monitor
fresh_monitor = record { order_timestamps = []; error_timestamps = [] }

abbrev pub keep : ℕ → List ℕ → List ℕ
keep zero ts = []
keep (suc n) [] = []
keep (suc n) (t ∷ ts) = t ∷ keep n ts

-- `deque(maxlen=200).append`
unfoldable pub deque_append : ℕ → List ℕ → List ℕ
deque_append t ts = t ∷ keep 199 ts

abbrev pub second : ℕ
second = 1_000_000

-- How many readings are not before `now - window`.
unfoldable pub recent : ℕ → ℕ → List ℕ → ℕ
recent now window ts = count_if (λ t. leb now (t + window)) ts

unfoldable pub record_order_attempt : ℕ → Monitor → Monitor
record_order_attempt now m = record m { order_timestamps = deque_append now m.order_timestamps }

unfoldable pub orders_in_last_minute : ℕ → Monitor → ℕ
orders_in_last_minute now m = recent now (60 * second) m.order_timestamps

-- `_maybe_trip_on_error_spike`
unfoldable pub trip_on_error_spike : Config → ℕ → ℕ → Monitor → Switch → Switch
trip_on_error_spike cfg now utc m kill =
    let window = cfg.risk.error_spike_window_seconds in
    let errors = recent now (window * second) m.error_timestamps in
    if leb cfg.risk.error_spike_threshold errors
    then engage (error_spike errors window) risk_monitor utc kill
    else kill

unfoldable pub record_error : Config → ℕ → ℕ → Monitor → Switch → Monitor × Switch
record_error cfg now utc m kill =
    let m' : Monitor = record m { error_timestamps = deque_append now m.error_timestamps } in
    (m', trip_on_error_spike cfg now utc m' kill)
