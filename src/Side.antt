-- ===== src/Side.antt =====
-- The literals "yes" and "no" of kalshi_agent/kalshi/types.py, and the actions.
use kalshi_agent.Base.{Bool, true, false}

pub data Side : Type 0 where
  yes_side no_side : Side

pub data Action : Type 0 where
  buy sell : Action

-- `a == b`
abbrev pub same_side : Side → Side → Bool
same_side yes_side yes_side = true
same_side no_side no_side = true
same_side _ _ = false
