-- ===== src/Bankroll/Cache.antt =====
-- What kalshi_agent/bankroll.py answers.
use kalshi_agent.Base.{ℕ, ◌+◌, ◌≤◌, ◌<◌, ◌≡◌, ◌≢◌, none, arith}
use kalshi_agent.Decimal.{Decimal}
use kalshi_agent.Result.{Exn, Result, ok, err, api_error}
use kalshi_agent.Wire.{PriceText, decimal, price_str_to_decimal}
use kalshi_agent.Bankroll.{Bankroll, refresh, get}

-- Within the time to live of a fetch the balance is that of the fetch, whatever Kalshi would answer
-- now; after it, a new balance is taken, and if the call fails with an API error the last known
-- balance serves again, or the fallback where none is known.
balance_after_fetch :
    (t now : ℕ) (d d' : Decimal) (answer : Result PriceText) (b : Bankroll)
    → let (first, b') = refresh t (ok (decimal d)) b in
      (first ≡ ok d)
      × (now ≤ t + b.ttl → get now answer b' ≡ (ok d, b'))
      × (t + b.ttl < now → (get now (ok (decimal d')) b').0 ≡ ok d')
      × ((get now (err api_error) b').0 ≡ ok d)
      × (b.cached ≡ none → (get now (err api_error) b).0 ≡ ok b.fallback)
unfolding refresh get price_str_to_decimal
balance_after_fetch t now d d' answer b = ground arith

-- An error of another kind, such as one of the transport, is raised once the cache is too old: the
-- last known balance does not serve.
other_error_raised :
    (t now : ℕ) (d : Decimal) (e : Exn) (b : Bankroll)
    → e ≢ api_error
    → t + b.ttl < now
    → let b' = (refresh t (ok (decimal d)) b).1 in get now (err e) b' ≡ (err e, b')
unfolding refresh get price_str_to_decimal
other_error_raised t now d e b ne old = ground arith
