-- ===== src/Risk/Guards.antt =====
-- What holds of a trade that `check_trade` of kalshi_agent/safety/risk_monitor.py allows.
use kalshi_agent.Base.{
  ℕ, ◌<◌, ◌≤◌, min, ◌≡◌, ◌∙◌, ◌≢◌, sym, ap, true, false, none, some, String, List, arith, inl, inr,
}
use kalshi_agent.Side.{same_side}
use kalshi_agent.Decimal.{Decimal, of_ℕ, leb_D, ltb_D, div, ◌*D◌, ◌-D◌, min_D}
use kalshi_agent.Result.{ok, Result-cases}
use kalshi_agent.Config.{Config}
use kalshi_agent.Storage.{Position, get_position}
use kalshi_agent.KillSwitch.{Switch}
use kalshi_agent.Fees.{edge_after_fees_dollars, side_probability}
use kalshi_agent.Risk.{
  Monitor, Now, Books, RiskDecision, TradeRequest, ticker_refused, category_refused,
  orders_in_last_minute, daily_loss_reached, daily_realized_pnl_dollars, check_trade, size_trade,
  closing_buy, closing_decision, opening_decision, open_size, capped_contracts, edge_check,
  total_exposure, current_position_exposure_dollars,
}

size_trade_price :
    (cfg : Config) (ps : List Position) (t : TradeRequest) (d : RiskDecision)
    → size_trade cfg ps t ≡ ok d
    → d.allowed ≡ true
    → (leb_D t.current_price (of_ℕ 0) ≡ false) × (leb_D (of_ℕ 1) t.current_price ≡ false)
unfolding size_trade
size_trade_price cfg ps t d e a = ground arith

-- A trade is allowed only if the kill switch is off, the whitelists let it through, the order rate
-- and the daily loss are below their limits and the price is strictly between 0 and 1; and the
-- check then leaves the kill switch as it was.
pub allowed_trade_guards :
    (lower : String → String) (cfg : Config) (now : Now) (books : Books) (mon : Monitor)
    (t : TradeRequest) (kill kill' : Switch) (d : RiskDecision)
    → check_trade lower cfg now books mon t kill ≡ (ok d, kill')
    → d.allowed ≡ true
    → (kill ≡ none)
      × (kill' ≡ none)
      × (ticker_refused cfg t.market_ticker ≡ false)
      × (category_refused lower cfg t.market_category ≡ false)
      × (orders_in_last_minute now.monotonic mon < cfg.risk.max_orders_per_minute)
      × (daily_loss_reached cfg (daily_realized_pnl_dollars now books) ≡ false)
      × (leb_D t.current_price (of_ℕ 0) ≡ false)
      × (leb_D (of_ℕ 1) t.current_price ≡ false)
unfolding check_trade
allowed_trade_guards lower cfg now books mon t kill kill' d e a =
    ground (arith, size_trade_price cfg books.positions t d)

edge_check_allowed :
    (cfg : Config) (t : TradeRequest) (n : ℕ) (d : RiskDecision)
    → edge_check cfg t n ≡ ok d
    → d.allowed ≡ true
    → let capital = t.current_price *D of_ℕ n in
      (d.sized_contracts ≡ n)
      × (d.expected_edge_dollars
          ≡ edge_after_fees_dollars n t.model_probability t.current_price t.side
              cfg.fees.assume_taker cfg.fees.taker_rate)
      × (leb_D capital (of_ℕ 0) ≡ false)
      × (r : Decimal) × (div d.expected_edge_dollars capital ≡ ok r)
      × (ltb_D (r *D of_ℕ 10000) (of_ℕ cfg.risk.min_edge_after_fees_bps) ≡ false)
unfolding edge_check
edge_check_allowed cfg t n d e a =
    let edge =
      edge_after_fees_dollars n t.model_probability t.current_price t.side cfg.fees.assume_taker
        cfg.fees.taker_rate in
    elim (Result-cases (div edge (t.current_price *D of_ℕ n))) [
      | inl (r, q) ↦ (ground arith, ground arith, ground arith, r, ground arith, ground arith)
      | inr (x, q) ↦ absurd (ground arith)
    ]

-- The edge that is left when the fees of the sized contracts are taken off.
abbrev pub edge_of_trade : Config → TradeRequest → RiskDecision → Decimal
edge_of_trade cfg t d =
    edge_after_fees_dollars d.sized_contracts t.model_probability t.current_price t.side
      cfg.fees.assume_taker cfg.fees.taker_rate

-- The edge after fees is what the decision reports, and it reaches the configured minimum, in basis
-- points of the capital at risk.
abbrev pub HasEdge : Config → TradeRequest → RiskDecision → Type 0
HasEdge cfg t d =
    (d.expected_edge_dollars ≡ edge_of_trade cfg t d)
    × (r : Decimal) × (div (edge_of_trade cfg t d) (t.current_price *D of_ℕ d.sized_contracts)
        ≡ ok r)
    × (ltb_D (r *D of_ℕ 10000) (of_ℕ cfg.risk.min_edge_after_fees_bps) ≡ false)

-- The limits within which a position is opened or enlarged.
abbrev pub WithinLimits : Config → List Position → TradeRequest → RiskDecision → Type 0
WithinLimits cfg ps t d =
    (0 < d.sized_contracts)
    × (d.sized_contracts ≤ cfg.risk.per_order_max_contracts)
    × (leb_D cfg.risk.max_total_exposure_usd (total_exposure ps) ≡ false)
    × (leb_D
          (cfg.risk.max_position_per_market_usd
            -D current_position_exposure_dollars ps t.market_ticker)
          (of_ℕ 0)
        ≡ false)
    × HasEdge cfg t d

open_size-le :
    (cfg : Config) (t : TradeRequest) (k m x : Decimal) (n : ℕ)
    → open_size cfg t k m x ≡ ok n
    → n ≤ cfg.risk.per_order_max_contracts
unfolding open_size capped_contracts
open_size-le cfg t k m x n e = ground arith

sized_WithinLimits :
    (cfg : Config) (ps : List Position) (t : TradeRequest) (d : RiskDecision) (n : ℕ)
    → n ≢ 0
    → n ≤ cfg.risk.per_order_max_contracts
    → leb_D cfg.risk.max_total_exposure_usd (total_exposure ps) ≡ false
    → leb_D
        (cfg.risk.max_position_per_market_usd
          -D current_position_exposure_dollars ps t.market_ticker)
        (of_ℕ 0)
      ≡ false
    → edge_check cfg t n ≡ ok d
    → d.allowed ≡ true
    → WithinLimits cfg ps t d
sized_WithinLimits cfg ps t d n some_size capped total room e a =
    let (same, edge, _, r, q, floor) = edge_check_allowed cfg t n d e a in
    let reported : d.expected_edge_dollars ≡ edge_of_trade cfg t d = rw same edge in
    let divided : div (edge_of_trade cfg t d) (t.current_price *D of_ℕ d.sized_contracts) ≡ ok r =
      ap (λ x. div x (t.current_price *D of_ℕ d.sized_contracts)) (sym reported)
      ∙ ap (λ k. div d.expected_edge_dollars (t.current_price *D of_ℕ k)) same
      ∙ q in
    (omega arith, omega arith, total, room, (reported, r, divided, floor))

opening_WithinLimits :
    (cfg : Config) (ps : List Position) (t : TradeRequest) (d : RiskDecision)
    → opening_decision cfg ps t ≡ ok d
    → d.allowed ≡ true
    → WithinLimits cfg ps t d
unfolding opening_decision
opening_WithinLimits cfg ps t d e a =
    let edge = side_probability (of_ℕ 1) t.side t.model_probability -D t.current_price in
    let room =
      cfg.risk.max_position_per_market_usd
      -D current_position_exposure_dollars ps t.market_ticker in
    let size = λ (kelly : Decimal).
      open_size cfg t
        (min_D (kelly *D cfg.risk.kelly_fraction *D t.confidence)
          cfg.risk.max_kelly_size_pct_bankroll)
        room (total_exposure ps) in
    elim (Result-cases (div edge (of_ℕ 1 -D t.current_price))) [
      | inl (kelly, q) ↦ elim (Result-cases (size kelly)) [
        | inl (n, s) ↦
            sized_WithinLimits cfg ps t d n (ground arith) (open_size-le cfg t _ _ _ n s)
              (ground arith) (ground arith) (ground arith) a
        | inr (x, s) ↦ absurd (ground arith)
      ]
      | inr (x, q) ↦ absurd (ground arith)
    ]

-- A trade that is allowed and closes no position opens or enlarges one within the limits: from 1
-- to the maximum number of contracts, with the total exposure below its limit and room left in
-- the market; the edge after fees, at the rate of the configuration, is the one that it reports and
-- at least the minimum.
pub allowed_opening_limits :
    (lower : String → String) (cfg : Config) (now : Now) (books : Books) (mon : Monitor)
    (t : TradeRequest) (kill kill' : Switch) (d : RiskDecision)
    → check_trade lower cfg now books mon t kill ≡ (ok d, kill')
    → d.allowed ≡ true
    → closing_buy t.side (get_position t.market_ticker books.positions) ≡ none
    → WithinLimits cfg books.positions t d
allowed_opening_limits lower cfg now books mon t kill kill' d e a c =
    opening_WithinLimits cfg books.positions t d (unfold check_trade size_trade in ground arith) a

-- A trade that is allowed and closes a position buys the other side of it, not more contracts than
-- it has and not more than the maximum; it is let through with no test of exposure or edge.
pub allowed_closing_size :
    (lower : String → String) (cfg : Config) (now : Now) (books : Books) (mon : Monitor)
    (t : TradeRequest) (kill kill' : Switch) (d : RiskDecision) (p : Position)
    → check_trade lower cfg now books mon t kill ≡ (ok d, kill')
    → d.allowed ≡ true
    → closing_buy t.side (get_position t.market_ticker books.positions) ≡ some p
    → (get_position t.market_ticker books.positions ≡ some p)
      × (same_side p.side t.side ≡ false)
      × (d.sized_contracts ≡ min p.count cfg.risk.per_order_max_contracts)
      × (d.sized_contracts ≤ p.count)
      × (d.expected_edge_dollars
          ≡ (of_ℕ 1 -D p.avg_price_dollars -D t.current_price) *D of_ℕ d.sized_contracts
            -D d.expected_fees_dollars)
unfolding check_trade size_trade closing_buy closing_decision
allowed_closing_size lower cfg now books mon t kill kill' d p e a c = ground arith
