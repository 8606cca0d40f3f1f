-- ===== src/Llm.antt =====
-- kalshi_agent/llm/openrouter.py: the loop of `chat_json` and the waits. An attempt is what one
-- request gives; prompts, logs and the throttle between requests are left out. The parsing of the
-- text of a reply is json's: a reply has an object that is found in it, or none. Waits are in
-- microseconds; a number in a header is not negative.
pub mod Retries
pub mod Parse
use kalshi_agent.Base.{
  ℕ, zero, suc, ◌+◌, ◌-◌, ◌*◌, ◌^◌, Bool, true, false, ◌&&◌, Option, none, some, min, leb, ltb,
  ◌==◌, if◌then◌else◌,
}
use kalshi_agent.Result.{Exn, Result, ok, err, llm_error, value_error}

-- A header that is not there, that is no number, or a number.
pub data Header : Type 0 where
  missing unreadable : Header
  number : ℕ → Header

abbrev pub second : ℕ
second = 1_000_000

abbrev pub max_backoff : ℕ
max_backoff = 60 * second

-- The end of `_rate_limit_wait`.
abbrev pub backoff : ℕ → ℕ
backoff attempt = min (2 * 2 ^ (attempt - 1) * second) max_backoff

abbrev pub reset_wait : Header → ℕ → ℕ → ℕ
reset_wait (number reset) now attempt =
    if ltb now reset then min (reset - now + 500_000) max_backoff else backoff attempt
reset_wait _ now attempt = backoff attempt

-- `_rate_limit_wait`; the reset point and the present time are on the same clock.
unfoldable pub rate_limit_wait : Header → Header → ℕ → ℕ → ℕ
rate_limit_wait (number retry_after) reset now attempt = min (retry_after + 500_000) max_backoff
rate_limit_wait _ reset now attempt = reset_wait reset now attempt

-- What the body of a reply holds: no JSON, no text, a text without an object, or an object.
pub data Content {ℓ} (A : Type ℓ) : Type ℓ where
  not_json empty unparseable : Content A
  object : A → Content A

pub data Attempt {ℓ} (A : Type ℓ) : Type ℓ where
  transport_failure : Attempt A
  reply : ℕ → Content A → Attempt A

-- Which budget an attempt counts against, or how it ends the loop.
pub data Kind {ℓ} (A : Type ℓ) : Type ℓ where
  error_attempt rate_limited : Kind A
  final : Result A → Kind A

module _ {ℓ} {A : Type ℓ} where
  abbrev pub content_kind : Content A → Kind A
  content_kind not_json = final (err value_error)
  content_kind empty = error_attempt
  content_kind unparseable = final (err llm_error)
  content_kind (object a) = final (ok a)

  unfoldable pub kind : Attempt A → Kind A
  kind transport_failure = error_attempt
  kind (reply status content) =
      if status == 429
      then rate_limited
      else if leb 500 status && ltb status 600
      then error_attempt
      else if leb 400 status
      then final (err llm_error)
      else content_kind content

  module _ (max_retries max_rate_limit_retries : ℕ) where
    -- What follows an attempt, with the counts of the two kinds of attempts before it and the number
    -- of requests that it makes.
    unfoldable pub after_kind :
        Kind A → ℕ → ℕ → ℕ → (ℕ → ℕ → Option (Result A × ℕ)) → Option (Result A × ℕ)
    after_kind (final r) errors limits made next = some (r, made)
    after_kind error_attempt errors limits made next =
        if leb max_retries (suc errors)
        then some (err llm_error, made)
        else next (suc errors) limits
    after_kind rate_limited errors limits made next =
        if leb max_rate_limit_retries (suc limits)
        then some (err llm_error, made)
        else next errors (suc limits)

    -- The `while` loop on fuel, on what the requests give one after the other: the result and the
    -- number of requests, or `none` where the fuel is used up.
    unfoldable pub chat_loop : ℕ → ℕ → ℕ → (ℕ → Attempt A) → ℕ → Option (Result A × ℕ)
    chat_loop zero errors limits calls made = none
    chat_loop (suc n) errors limits calls made =
        after_kind (kind (calls made)) errors limits (suc made)
          (λ e l. chat_loop n e l calls (suc made))

    -- `chat_json`
    unfoldable pub chat_json : (ℕ → Attempt A) → Option (Result A × ℕ)
    chat_json calls = chat_loop (max_retries + max_rate_limit_retries + 2) 0 0 calls 0
