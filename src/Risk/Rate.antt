-- ===== src/Risk/Rate.antt =====
-- The windows of kalshi_agent/safety/risk_monitor.py count what was recorded in them.
use kalshi_agent.Base.{
  ℕ, zero, suc, ◌+◌, ◌-◌, ◌*◌, ◌<◌, ◌≤◌, ◌≡◌, refl, true, false, String, List, [], ◌∷◌, All, length,
  count_if-le, arith, leb, min, Bool-cases, inl, inr, map,
}
use kalshi_agent.Result.{ok}
use kalshi_agent.Config.{Config}
use kalshi_agent.KillSwitch.{Switch, is_engaged, engage}
use kalshi_agent.Risk.{
  Monitor, Now, Books, RiskDecision, TradeRequest, deque_append, recent, record_order_attempt,
  orders_in_last_minute, trip_on_error_spike, record_error, check_trade,
}
use kalshi_agent.Risk.Guards.{allowed_trade_guards}
use kalshi_agent.Risk.Window.{keep, second}

-- The first `j` readings are in the window.
abbrev Leading : ℕ → ℕ → ℕ → List ℕ → Type 0
Leading now w zero ts = Unit
Leading now w (suc j) [] = ⊥
Leading now w (suc j) (t ∷ ts) = (now ≤ t + w) × Leading now w j ts

keep-Leading :
    (now w j n : ℕ) (ts : List ℕ) → j ≤ n → Leading now w j ts → Leading now w j (keep n ts)
keep-Leading now w zero n ts h l = tt
keep-Leading now w (suc j) n [] h l = absurd l
keep-Leading now w (suc j) zero (t ∷ ts) h l = absurd (omega arith)
keep-Leading now w (suc j) (suc n) (t ∷ ts) h (here, rest) =
    (here, keep-Leading now w j n ts (omega arith) rest)

le-recent : (now w j : ℕ) (ts : List ℕ) → Leading now w j ts → j ≤ recent now w ts
unfolding recent
le-recent now w zero ts l = omega arith
le-recent now w (suc j) [] l = absurd l
le-recent now w (suc j) (t ∷ ts) (here, rest) = ground (arith, le-recent now w j ts rest)

-- Readings appended one after the other, the oldest first.
append_all : List ℕ → List ℕ → List ℕ
append_all [] ts = ts
append_all (t ∷ new) ts = append_all new (deque_append t ts)

Leading-fewer : (now w j k : ℕ) (ts : List ℕ) → k ≤ j → Leading now w j ts → Leading now w k ts
Leading-fewer now w j zero ts h l = tt
Leading-fewer now w zero (suc k) ts h l = absurd (omega arith)
Leading-fewer now w (suc j) (suc k) [] h l = l
Leading-fewer now w (suc j) (suc k) (t ∷ ts) h (here, rest) =
    (here, Leading-fewer now w j k ts (omega arith) rest)

append_all-Leading :
    (now w j k : ℕ) (new ts : List ℕ)
    → All (λ t. now ≤ t + w) new
    → k ≤ 200
    → k ≤ j + length new
    → Leading now w j ts
    → Leading now w k (append_all new ts)
unfolding append_all deque_append
append_all-Leading now w j k [] ts all small h l = Leading-fewer now w j k ts (omega arith) l
append_all-Leading now w j k (t ∷ new) ts (here, all) small h l =
    let i = min j 199 in
    let old =
      keep-Leading now w i 199 ts (omega arith) (Leading-fewer now w j i ts (omega arith) l) in
    append_all-Leading now w (suc i) k new (t ∷ keep 199 ts) all small (omega arith) (here, old)

length-keep : (n : ℕ) (ts : List ℕ) → length (keep n ts) ≤ n
length-keep zero ts = omega arith
length-keep (suc n) [] = omega arith
length-keep (suc n) (t ∷ ts) = omega (arith, length-keep n ts)

-- Order attempts at the given readings of the clock, the oldest first.
abbrev pub attempts : List ℕ → Monitor → Monitor
attempts [] m = m
attempts (t ∷ times) m = attempts times (record_order_attempt t m)

timestamps-attempts :
    (times : List ℕ) (m : Monitor)
    → (attempts times m).order_timestamps ≡ append_all times m.order_timestamps
unfolding append_all record_order_attempt
timestamps-attempts [] m = refl
timestamps-attempts (t ∷ times) m = timestamps-attempts times (record_order_attempt t m)

-- Once as many orders as the limit allows have been attempted within the last minute, the next
-- trade is not allowed, if the limit is at most 200.
pub rate_limit_rejects :
    (lower : String → String) (cfg : Config) (now : Now) (books : Books) (mon : Monitor)
    (t : TradeRequest) (kill kill' : Switch) (times : List ℕ) (d : RiskDecision)
    → All (λ s. now.monotonic ≤ s + 60 * second) times
    → cfg.risk.max_orders_per_minute ≤ length times
    → cfg.risk.max_orders_per_minute ≤ 200
    → check_trade lower cfg now books (attempts times mon) t kill ≡ (ok d, kill')
    → d.allowed ≡ false
rate_limit_rejects lower cfg now books mon t kill kill' times d all enough small e =
    let max = cfg.risk.max_orders_per_minute in
    let lead : Leading now.monotonic (60 * second) max (append_all times mon.order_timestamps) =
      append_all-Leading now.monotonic (60 * second) 0 max times mon.order_timestamps all small
        (omega arith) tt in
    let counted : max ≤ orders_in_last_minute now.monotonic (attempts times mon) =
      unfold orders_in_last_minute in
      rw timestamps-attempts (le-recent now.monotonic (60 * second) max _ lead) in
    elim (Bool-cases d.allowed) [
      | inl yes_allowed ↦ absurd (
          omega (
            arith,
            allowed_trade_guards lower cfg now books (attempts times mon) t kill kill' d e
                yes_allowed,
          ))
      | inr refused ↦ refused
    ]

-- The deque holds 200 readings, so whatever is attempted, a limit above 200 is never reached.
rate_limit_above_200 :
    (now t : ℕ) (mon : Monitor) (limit : ℕ)
    → 200 < limit
    → orders_in_last_minute now (record_order_attempt t mon) < limit
unfolding orders_in_last_minute record_order_attempt deque_append recent
rate_limit_above_200 now t mon limit h = omega (
  arith,
  count_if-le (λ s. leb now (s + 60 * second)) (t ∷ keep 199 mon.order_timestamps),
  length-keep 199 mon.order_timestamps,
)

-- Errors at the given pairs of readings of the two clocks, the oldest first.
abbrev pub errors : Config → List (ℕ × ℕ) → Monitor × Switch → Monitor × Switch
errors cfg [] s = s
errors cfg ((now, utc) ∷ times) (m, kill) = errors cfg times (record_error cfg now utc m kill)

timestamps-errors :
    (cfg : Config) (times : List (ℕ × ℕ)) (m : Monitor) (kill : Switch)
    → (errors cfg times (m, kill)).0.error_timestamps
      ≡ append_all (map (λ p. p.0) times) m.error_timestamps
unfolding append_all record_error
timestamps-errors cfg [] m kill = refl
timestamps-errors cfg ((now, utc) ∷ times) m kill =
    let s = record_error cfg now utc m kill in timestamps-errors cfg times s.0 s.1

readings_in :
    (now w : ℕ) (times : List (ℕ × ℕ))
    → All (λ p. now ≤ p.0 + w) times
    → All (λ t. now ≤ t + w) (map (λ p. p.0) times)
readings_in now w [] all = tt
readings_in now w (p ∷ times) (here, all) = (here, readings_in now w times all)

length-readings : (times : List (ℕ × ℕ)) → length (map (λ p. p.0) times) ≡ length times
length-readings [] = refl
length-readings (p ∷ times) = omega (arith, length-readings times)

trip_engages :
    (cfg : Config) (now utc : ℕ) (m : Monitor) (kill : Switch)
    → cfg.risk.error_spike_threshold
      ≤ recent now (cfg.risk.error_spike_window_seconds * second) m.error_timestamps
    → is_engaged (trip_on_error_spike cfg now utc m kill) ≡ true
unfolding trip_on_error_spike engage
trip_engages cfg now utc m kill h = ground arith

-- When an error is recorded and, with it, at least as many as the threshold fall into the window
-- that ends now, the kill switch is engaged; the threshold is at most 200.
pub error_spike_engages :
    (cfg : Config) (times : List (ℕ × ℕ)) (now utc : ℕ) (m : Monitor) (kill : Switch)
    → All (λ p. now ≤ p.0 + cfg.risk.error_spike_window_seconds * second) times
    → cfg.risk.error_spike_threshold ≤ suc (length times)
    → cfg.risk.error_spike_threshold ≤ 200
    → let (m', kill') = errors cfg times (m, kill) in
      is_engaged (record_error cfg now utc m' kill').1 ≡ true
unfolding record_error
error_spike_engages cfg times now utc m kill all enough small =
    let w = cfg.risk.error_spike_window_seconds * second in
    let k = cfg.risk.error_spike_threshold in
    let old = (errors cfg times (m, kill)).0.error_timestamps in
    let kill' = (errors cfg times (m, kill)).1 in
    let m' : Monitor = record (errors cfg times (m, kill)).0 {
      error_timestamps = deque_append now old;
    } in
    let before : Leading now w (k - 1) old = rw (timestamps-errors cfg times m kill) (
      append_all-Leading now w 0 (k - 1) (map (λ p. p.0) times) m.error_timestamps
        (readings_in now w times all) (omega arith) (omega (arith, length-readings times)) tt) in
    let lead : Leading now w k (deque_append now old) =
      unfold append_all in
      append_all-Leading now w (k - 1) k (now ∷ []) old (omega arith, tt) small (omega arith)
        before in
    trip_engages cfg now utc m' kill' (le-recent now w k (deque_append now old) lead)
