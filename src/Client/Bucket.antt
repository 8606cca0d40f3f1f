-- ===== src/Client/Bucket.antt =====
-- `TokenBucket` of kalshi_agent/kalshi/client.py. The float of tokens is counted in millionths of a
-- token and the clock in microseconds, without rounding, so a rate in tokens per second is one in
-- millionths per microsecond; the rate is a natural that is not 0. The wait is rounded up to the
-- clock. The lock makes calls follow one another.
use kalshi_agent.Base.{
  ℕ, ◌+◌, ◌-◌, ◌*◌, ◌/◌, ◌≤◌, ◌<◌, ◌≡◌, refl, min, max, ltb, arith, if◌then◌else◌,
}

abbrev pub token : ℕ
token = 1_000_000

pub record Bucket : Type 0 where
  pub rate : ℕ
  pub tokens : ℕ
  pub last : ℕ

abbrev pub capacity : ℕ → ℕ
capacity rate = max rate 1 * token

abbrev pub new_bucket : ℕ → ℕ → Bucket
new_bucket rate now = record { rate = rate; tokens = capacity rate; last = now }

-- `_tokens` behind the refill.
unfoldable pub refilled : ℕ → Bucket → ℕ
refilled now b = min (capacity b.rate) (b.tokens + (now - b.last) * b.rate)

-- The least whole number of microseconds in which `missing` comes.
unfoldable pub wait_for : ℕ → ℕ → ℕ
wait_for rate missing = (missing + (rate - 1)) / rate

-- `acquire`: how long the call sleeps, and the bucket behind it.
unfoldable pub acquire : ℕ → Bucket → ℕ × Bucket
acquire now b =
    let tokens = refilled now b in
    if ltb tokens token
    then (wait_for b.rate (token - tokens), record b { tokens = 0; last = now })
    else (0, record b { tokens = tokens - token; last = now })

refilled_cap : (now : ℕ) (b : Bucket) → refilled now b ≤ capacity b.rate
unfolding refilled
refilled_cap now b = omega arith

wait_for_bounds :
    (rate missing : ℕ)
    → 0 < rate
    → (missing ≤ wait_for rate missing * rate)
      × (wait_for rate missing * rate < missing + rate)
      × (0 < missing → 0 < wait_for rate missing)
unfolding wait_for
wait_for_bounds rate missing pos = grind arith

-- The bucket never holds more than its capacity, a token is taken or the bucket is emptied, and a
-- call sleeps exactly if the bucket has less than one token, just as long as one token takes to
-- come at the rate of the bucket.
acquire_bounds :
    (now : ℕ) (b : Bucket)
    → 0 < b.rate
    → let (wait, b') = acquire now b in
      (b'.tokens ≤ capacity b.rate)
      × (token ≤ refilled now b → (wait ≡ 0) × (b'.tokens + token ≡ refilled now b))
      × (refilled now b < token → (0 < wait) × (b'.tokens ≡ 0))
      × (token ≤ refilled now b + wait * b.rate)
      × (wait * b.rate < token - refilled now b + b.rate)
unfolding acquire
acquire_bounds now b pos =
    ground (arith, wait_for_bounds b.rate (token - refilled now b) pos, refilled_cap now b)

refilled_idle : (now : ℕ) (b : Bucket) → b.last ≡ now → b.tokens ≡ 0 → refilled now b ≡ 0
unfolding refilled
refilled_idle now b idle empty =
    let no_time : now - b.last ≡ 0 = omega arith in rw (no_time, empty) (omega arith)

acquire_empty :
    (now : ℕ) (b : Bucket)
    → refilled now b ≡ 0
    → acquire now b ≡ (wait_for b.rate token, record b { tokens = 0; last = now })
unfolding acquire
acquire_empty now b empty = rw empty refl

refilled_after :
    (now wait : ℕ) (b : Bucket)
    → 0 < b.rate
    → token ≤ wait * b.rate
    → token ≤ refilled (now + wait) (record b { tokens = 0; last = now })
unfolding refilled
refilled_after now wait b pos enough =
    let slept : now + wait - now ≡ wait = omega arith in rw slept (omega arith)

acquire_full : (now : ℕ) (b : Bucket) → token ≤ refilled now b → (acquire now b).0 ≡ 0
unfolding acquire
acquire_full now b full = ground arith

-- After a call that has slept, the time slept counts again: a bucket that was empty and idle for no
-- time gives the next token without any wait to a call that comes just when the sleep is over.
slept_time_counts_twice :
    (now : ℕ) (b : Bucket)
    → 0 < b.rate
    → b.last ≡ now
    → b.tokens ≡ 0
    → let (wait, b') = acquire now b in (0 < wait) × ((acquire (now + wait) b').0 ≡ 0)
slept_time_counts_twice now b pos idle empty =
    let wait = wait_for b.rate token in
    let bounds = wait_for_bounds b.rate token pos in
    let first = acquire_empty now b (refilled_idle now b idle empty) in
    rw first (
      bounds.2 (omega arith),
      acquire_full (now + wait) (record b { tokens = 0; last = now })
          (refilled_after now wait b pos bounds.0),
    )
