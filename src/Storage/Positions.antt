-- ===== src/Storage/Positions.antt =====
-- The positions table as a map from tickers.
use kalshi_agent.Base.{ℕ, ◌≡◌, refl, some, List, [], ◌∷◌, ◌==◌, if◌then◌else◌, arith}
use kalshi_agent.Storage.{Position, get_position, put_position}

pub get-put_position :
    (t : ℕ) (q : Position) (ps : List Position)
    → get_position t (put_position q ps)
      ≡ (if q.market_ticker == t then some q else get_position t ps)
unfolding get_position put_position
get-put_position t q [] = refl
get-put_position t q (p ∷ ps) = ground (arith, get-put_position t q ps)

-- A row is found under its own ticker.
pub get_position_ticker :
    (t : ℕ) (ps : List Position) (p : Position) → get_position t ps ≡ some p → p.market_ticker ≡ t
unfolding get_position
get_position_ticker t [] p e = ground arith
get_position_ticker t (x ∷ ps) p e = ground (arith, get_position_ticker t ps p)
