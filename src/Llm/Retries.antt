-- ===== src/Llm/Retries.antt =====
-- The loop of `chat_json` in kalshi_agent/llm/openrouter.py ends.
use kalshi_agent.Base.{
  ℕ, zero, suc, ◌+◌, ◌-◌, ◌≤◌, ◌<◌, ◌≡◌, ◌⊎◌, refl, Option, some, max, leb, arith, inl, inr,
  Bool-cases,
}
use kalshi_agent.Result.{Result, err, llm_error}
use kalshi_agent.Llm.{
  Attempt, Kind, error_attempt, rate_limited, final, kind, after_kind, chat_loop, chat_json,
}

module _ (me ml : ℕ) where
  -- The loop has ended, within a number of requests, with an OpenRouterError or with what its last
  -- request came to.
  abbrev pub Ends : (ℕ → Attempt ℕ) → ℕ → Option (Result ℕ × ℕ) → Type 0
  Ends calls bound o =
      (r : Result ℕ) × (j : ℕ) × (o ≡ some (r, suc j))
      × (suc j ≤ bound)
      × ((r ≡ err llm_error) ⊎ (kind (calls j) ≡ final r))

  after_kind-Ends :
      (calls : ℕ → Attempt ℕ) (k : Kind ℕ) (errors limits j bound : ℕ)
      (next : ℕ → ℕ → Option (Result ℕ × ℕ))
      → kind (calls j) ≡ k
      → suc j ≤ bound
      → (suc errors < me → Ends calls bound (next (suc errors) limits))
      → (suc limits < ml → Ends calls bound (next errors (suc limits)))
      → Ends calls bound (after_kind me ml k errors limits (suc j) next)
  unfolding after_kind
  after_kind-Ends calls (final r) errors limits j bound next e small on_error on_limit =
      (r, j, refl, small, inr e)
  after_kind-Ends calls error_attempt errors limits j bound next e small on_error on_limit =
      elim (Bool-cases (leb me (suc errors))) [
        | inl q ↦ rw q (err llm_error, j, refl, small, inl refl)
        | inr q ↦ rw q (on_error (ground arith))
      ]
  after_kind-Ends calls rate_limited errors limits j bound next e small on_error on_limit =
      elim (Bool-cases (leb ml (suc limits))) [
        | inl q ↦ rw q (err llm_error, j, refl, small, inl refl)
        | inr q ↦ rw q (on_limit (ground arith))
      ]

  chat_loop-Ends :
      (n errors limits made bound : ℕ) (calls : ℕ → Attempt ℕ)
      → errors < max 1 me
      → limits < max 1 ml
      → max 1 me + max 1 ml ≤ n + errors + limits
      → made + max 1 me + max 1 ml ≤ bound + errors + limits + 1
      → Ends calls bound (chat_loop me ml n errors limits calls made)
  unfolding chat_loop
  chat_loop-Ends zero errors limits made bound calls e l enough small = absurd (omega arith)
  chat_loop-Ends (suc n) errors limits made bound calls e l enough small =
      after_kind-Ends calls (kind (calls made)) errors limits made bound _ refl (omega arith)
        (λ more.
          chat_loop-Ends n (suc errors) limits (suc made) bound calls (omega arith) l (omega arith)
            (omega arith))
        (λ more.
          chat_loop-Ends n errors (suc limits) (suc made) bound calls e (omega arith) (omega arith)
            (omega arith))

  -- Whatever the answers, `chat_json` ends: it returns or raises after at most as many requests as
  -- the two budgets allow together, less one.
  pub chat_json-Ends :
      (calls : ℕ → Attempt ℕ) → Ends calls (max 1 me + max 1 ml - 1) (chat_json me ml calls)
  unfolding chat_json
  chat_json-Ends calls =
      chat_loop-Ends (me + ml + 2) 0 0 0 (max 1 me + max 1 ml - 1) calls (omega arith) (omega arith)
        (omega arith) (omega arith)
