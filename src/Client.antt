-- ===== src/Client.antt =====
-- kalshi_agent/kalshi/client.py: the retries of `_request` and `cancel_all_resting`. What one HTTP
-- call gives is an `Attempt`; signing, headers, waits between attempts and the parsing of bodies
-- are left out. `Client.Bucket` has the token bucket.
pub mod Bucket
pub mod Retry
pub mod Cancel
pub mod Categories
pub mod Paths
use kalshi_agent.Base.{
  ℕ, zero, suc, Bool, true, false, ◌&&◌, ◌||◌, Option, none, some, List, [], ◌∷◌, or_default, leb,
  ltb, ◌==◌, if◌then◌else◌,
}
use kalshi_agent.Result.{Exn, Result, ok, err, api_error, auth_error, http_error, ◌>>=◌}
use kalshi_agent.Wire.{OrderResponse}

-- A reply with its status and its body, or an httpx.HTTPError.
pub data Attempt {ℓ} (A : Type ℓ) : Type ℓ where
  reply : ℕ → A → Attempt A
  transport_failure : Attempt A

-- What the loop body does with an attempt: go on, with or without an exception to keep, or end.
pub data Step {ℓ} (A : Type ℓ) : Type ℓ where
  go_on : Option Exn → Step A
  stop : Result A → Step A

abbrev pub newer : Option Exn → Option Exn → Option Exn
newer none last = last
newer (some e) _ = some e

module _ {ℓ} {A : Type ℓ} where
  unfoldable pub step : Attempt A → Step A
  step transport_failure = go_on (some http_error)
  step (reply status body) =
      if status == 429
      then go_on none
      else if leb 500 status && ltb status 600
      then go_on (some api_error)
      else if status == 401 || status == 403
      then stop (err auth_error)
      else if leb 400 status
      then stop (err api_error)
      else stop (ok body)

  -- `raise last_exc`, or `KalshiAPIError(0, "exhausted retries")`
  abbrev pub exhausted : Option Exn → Result A
  exhausted last_exc = err (or_default last_exc api_error)

  -- How the loop goes on behind an attempt.
  unfoldable pub after_step : Step A → ℕ → Option Exn → (Option Exn → Result A × ℕ) → Result A × ℕ
  after_step (stop r) made last_exc next = (r, made)
  after_step (go_on e) made last_exc next = next (newer e last_exc)

  -- The loop with `n` attempts left, on what the calls give one after the other: the result, and
  -- how many calls have been made.
  unfoldable pub attempt_loop : ℕ → Option Exn → (ℕ → Attempt A) → ℕ → Result A × ℕ
  attempt_loop zero last_exc calls made = (exhausted last_exc, made)
  attempt_loop (suc n) last_exc calls made =
      after_step (step (calls made)) (suc made) last_exc (λ e. attempt_loop n e calls (suc made))

  -- `_request`, with three attempts.
  unfoldable pub request : (ℕ → Attempt A) → Result A × ℕ
  request calls = attempt_loop 3 none calls 0

-- `cancel_all_resting`, behind `list_orders`: `cancel` is what `cancel_order` gives for an id.
unfoldable pub after_cancel : Result (Unit {0}) → ℕ → (ℕ → Result ℕ) → Result ℕ
after_cancel (ok _) n next = next (suc n)
after_cancel (err api_error) n next = next n
after_cancel (err e) n next = err e

unfoldable pub cancel_each : (ℕ → Result (Unit {0})) → List OrderResponse → ℕ → Result ℕ
cancel_each cancel [] n = ok n
cancel_each cancel (o ∷ os) n = after_cancel (cancel o.order_id) n (cancel_each cancel os)

unfoldable pub cancel_all_resting : (ℕ → Result (Unit {0})) → Result (List OrderResponse) → Result ℕ
cancel_all_resting cancel resting = resting >>= λ os. cancel_each cancel os 0
