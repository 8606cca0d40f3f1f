-- ===== src/Client/Retry.antt =====
-- What the retries of `_request` in kalshi_agent/kalshi/client.py come to.
use kalshi_agent.Base.{
  ℕ, suc, ◌≡◌, ◌∙◌, refl, ap, Bool, true, false, not, Option, none, some, arith, leb, ltb, ◌==◌,
  Bool-cases, inl, inr, if◌then◌else◌,
}
use kalshi_agent.Result.{Exn, Result, ok, err, api_error, auth_error, http_error}
use kalshi_agent.Client.{
  Attempt, reply, transport_failure, go_on, stop, step, exhausted, newer, after_step, attempt_loop,
  request,
}

-- The replies that end a request: neither a rate limit (429) nor a server error (5xx).
abbrev pub is_final : Attempt ℕ → Bool
is_final transport_failure = false
is_final (reply status body) =
    if status == 429 then false else if leb 500 status then leb 600 status else true

-- What a final reply means to the caller.
abbrev pub meaning : Attempt ℕ → Result ℕ
meaning transport_failure = err http_error
meaning (reply status body) =
    if ltb status 400
    then ok body
    else if status == 401
    then err auth_error
    else if status == 403
    then err auth_error
    else err api_error

step_final : (a : Attempt ℕ) → is_final a ≡ true → step a ≡ stop (meaning a)
unfolding step
step_final transport_failure h = absurd (ground arith)
step_final (reply status body) h = ground arith

-- The exception that an attempt which is not final leaves to be raised.
abbrev pub kept : Attempt ℕ → Option Exn
kept transport_failure = some http_error
kept (reply status _) = if status == 429 then none else some api_error

step_retried : (a : Attempt ℕ) → is_final a ≡ false → step a ≡ go_on (kept a)
unfolding step
step_retried transport_failure h = refl
step_retried (reply status body) h = ground arith

attempt_final :
    (n made : ℕ) (last : Option Exn) (calls : ℕ → Attempt ℕ)
    → is_final (calls made) ≡ true
    → attempt_loop (suc n) last calls made ≡ (meaning (calls made), suc made)
unfolding attempt_loop after_step
attempt_final n made last calls h = rw (step_final (calls made) h) refl

attempt_retried :
    (n made : ℕ) (last : Option Exn) (calls : ℕ → Attempt ℕ)
    → is_final (calls made) ≡ false
    → attempt_loop (suc n) last calls made
      ≡ attempt_loop n (newer (kept (calls made)) last) calls (suc made)
unfolding attempt_loop after_step
attempt_retried n made last calls h = rw (step_retried (calls made) h) refl

abbrev pub is_rate_limit : Attempt ℕ → Bool
is_rate_limit transport_failure = false
is_rate_limit (reply status _) = status == 429

abbrev pub failure : Attempt ℕ → Exn
failure transport_failure = http_error
failure (reply _ _) = api_error

-- What three attempts that all fail come to: the failure of the last of them that was not rate
-- limited, and an API error where all were.
abbrev pub last_failure : Attempt ℕ → Attempt ℕ → Attempt ℕ → Exn
last_failure a b c =
    if not (is_rate_limit c)
    then failure c
    else if not (is_rate_limit b)
    then failure b
    else if not (is_rate_limit a)
    then failure a
    else api_error

kept_limited : (a : Attempt ℕ) → is_rate_limit a ≡ true → kept a ≡ none
kept_limited transport_failure h = absurd (ground arith)
kept_limited (reply status body) h = ground arith

kept-failure : (a : Attempt ℕ) → is_rate_limit a ≡ false → kept a ≡ some (failure a)
kept-failure transport_failure h = refl
kept-failure (reply status body) h = ground arith

exhausted_lem :
    (a b c : Attempt ℕ)
    → let result : Result ℕ = exhausted (newer (kept c) (newer (kept b) (newer (kept a) none))) in
      result ≡ err (last_failure a b c)
exhausted_lem a b c = elim (Bool-cases (is_rate_limit c)) [
  | inr r ↦ rw (r, kept-failure c r) refl
  | inl r ↦ elim (Bool-cases (is_rate_limit b)) [
    | inr q ↦ rw (r, q, kept_limited c r, kept-failure b q) refl
    | inl q ↦ elim (Bool-cases (is_rate_limit a)) [
      | inr p ↦ rw (r, q, p, kept_limited c r, kept_limited b q, kept-failure a p) refl
      | inl p ↦ rw (r, q, p, kept_limited c r, kept_limited b q, kept_limited a p) refl
    ]
  ]
]

-- A request returns or raises what the first final reply among three attempts means: the body below
-- 400, an authentication error at 401 and 403, an API error otherwise; and no further call is made.
-- If no reply is final it raises the last failure that was not a rate limit, or an API error if all
-- were.
pub request_result :
    (calls : ℕ → Attempt ℕ)
    → (is_final (calls 0) ≡ true → request calls ≡ (meaning (calls 0), 1))
      × (is_final (calls 0) ≡ false
          → is_final (calls 1) ≡ true
          → request calls ≡ (meaning (calls 1), 2))
      × (is_final (calls 0) ≡ false
          → is_final (calls 1) ≡ false
          → is_final (calls 2) ≡ true
          → request calls ≡ (meaning (calls 2), 3))
      × (is_final (calls 0) ≡ false
          → is_final (calls 1) ≡ false
          → is_final (calls 2) ≡ false
          → request calls ≡ (err (last_failure (calls 0) (calls 1) (calls 2)), 3))
unfolding request
request_result calls = (
  λ p. attempt_final 2 0 none calls p,
  λ p q. attempt_retried 2 0 none calls p ∙ attempt_final 1 1 _ calls q,
  λ p q r.
      attempt_retried 2 0 none calls p
      ∙ attempt_retried 1 1 _ calls q
      ∙ attempt_final 0 2 _ calls r,
  λ p q r.
      attempt_retried 2 0 none calls p
      ∙ attempt_retried 1 1 _ calls q
      ∙ attempt_retried 0 2 _ calls r
      ∙ (unfold attempt_loop in ap (λ x. (x, 3)) (exhausted_lem (calls 0) (calls 1) (calls 2))),
)
