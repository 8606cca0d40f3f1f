-- ===== src/Risk/Sizing.antt =====
-- The second half of `check_trade` in kalshi_agent/safety/risk_monitor.py: the price test, the
-- closing buy, and the size of an opening order. Counts and limits on counts are naturals.
use kalshi_agent.Base.{
  ℕ, Bool, true, false, not, ◌&&◌, ◌||◌, Option, none, some, String, List, map, min, ltb, ◌==◌,
  if◌then◌else◌,
}
use kalshi_agent.Base.Int.{ℤ, pos, negsuc}
use kalshi_agent.Side.{Side, same_side}
use kalshi_agent.Decimal.{Decimal, of_ℕ, ◌-D◌, ◌*D◌, div, leb_D, ltb_D, min_D, truncate, sum_D}
use kalshi_agent.Result.{Result, ok, ◌>>=◌}
use kalshi_agent.Config.{Config}
use kalshi_agent.Storage.{Position, get_position}
use kalshi_agent.Fees.{total_fee_dollars, edge_after_fees_dollars, side_probability}

pub data Reason : Type 0 where
  kill_switch_engaged ticker_not_whitelisted : Reason
  category_not_whitelisted : Option String → Reason
  max_orders_per_minute_exceeded max_daily_loss_exceeded price_at_extremum : Reason
  max_total_exposure_exceeded no_edge kelly_zero_or_negative per_market_cap_full : Reason
  size_below_one_contract zero_capital_at_risk : Reason
  edge_below_min : Decimal → ℕ → Reason

pub record RiskDecision : Type 0 where
  pub allowed : Bool
  pub reason : Option Reason
  pub sized_contracts : ℕ
  pub expected_fees_dollars : Decimal
  pub expected_edge_dollars : Decimal

-- The arguments of `check_trade`.
pub record TradeRequest : Type 0 where
  pub market_ticker : ℕ
  pub side : Side
  pub model_probability : Decimal
  pub current_price : Decimal
  pub confidence : Decimal
  pub bankroll_dollars : Decimal
  pub market_category : Option String

-- The constructor calls of `RiskDecision`.
abbrev pub rejected_with : Reason → ℕ → Decimal → Decimal → RiskDecision
rejected_with r n fees edge = record {
  allowed = false;
  reason = some r;
  sized_contracts = n;
  expected_fees_dollars = fees;
  expected_edge_dollars = edge;
}

abbrev pub rejected : Reason → RiskDecision
rejected r = rejected_with r 0 (of_ℕ 0) (of_ℕ 0)

abbrev pub allowed_with : ℕ → Decimal → Decimal → RiskDecision
allowed_with n fees edge = record {
  allowed = true;
  reason = none;
  sized_contracts = n;
  expected_fees_dollars = fees;
  expected_edge_dollars = edge;
}

unfoldable pub position_exposure : Position → Decimal
position_exposure p = p.avg_price_dollars *D of_ℕ p.count

-- `current_total_exposure_dollars`
unfoldable pub total_exposure : List Position → Decimal
total_exposure ps = sum_D (of_ℕ 0) (map position_exposure ps)

abbrev exposure_or_zero : Option Position → Decimal
exposure_or_zero none = of_ℕ 0
exposure_or_zero (some p) = position_exposure p

unfoldable pub current_position_exposure_dollars : List Position → ℕ → Decimal
current_position_exposure_dollars ps t = exposure_or_zero (get_position t ps)

-- The position that a buy of `side` closes, where there is one.
unfoldable pub closing_buy : Side → Option Position → Option Position
closing_buy side none = none
closing_buy side (some p) = if ltb 0 p.count && not (same_side p.side side) then some p else none

unfoldable pub closing_decision : Config → TradeRequest → Position → RiskDecision
closing_decision cfg t existing =
    let price = t.current_price in
    let contracts = min existing.count cfg.risk.per_order_max_contracts in
    let fees = total_fee_dollars contracts price cfg.fees.assume_taker cfg.fees.taker_rate in
    let close_edge = (of_ℕ 1 -D existing.avg_price_dollars -D price) *D of_ℕ contracts -D fees in
    allowed_with contracts fees close_edge

-- `min(int(...), per_order_max_contracts)`; a count below 0 is refused as 0 is.
unfoldable pub capped_contracts : ℤ → ℕ → ℕ
capped_contracts (pos n) cap = min n cap
capped_contracts (negsuc n) cap = 0

-- The number of contracts, from the Kelly fraction and the room that the limits leave.
unfoldable pub open_size : Config → TradeRequest → Decimal → Decimal → Decimal → Result ℕ
open_size cfg t kelly_capped remaining_for_market total_exp =
    let size = min_D (kelly_capped *D t.bankroll_dollars) remaining_for_market in
    let remaining_global = cfg.risk.max_total_exposure_usd -D total_exp in
    div (min_D size remaining_global) t.current_price >>= λ q.
    ok (capped_contracts (truncate q) cfg.risk.per_order_max_contracts)

-- The edge after fees, in basis points of the capital at risk.
unfoldable pub edge_check : Config → TradeRequest → ℕ → Result RiskDecision
edge_check cfg t contracts =
    let price = t.current_price in
    let taker = cfg.fees.assume_taker in
    let rate = cfg.fees.taker_rate in
    let fees = total_fee_dollars contracts price taker rate in
    let edge = edge_after_fees_dollars contracts t.model_probability price t.side taker rate in
    let capital_at_risk = price *D of_ℕ contracts in
    let minimum = cfg.risk.min_edge_after_fees_bps in
    if leb_D capital_at_risk (of_ℕ 0)
    then ok (rejected Reason.zero_capital_at_risk)
    else (div edge capital_at_risk >>= λ ratio.
        let edge_bps = ratio *D of_ℕ 10000 in
        if ltb_D edge_bps (of_ℕ minimum)
        then ok (rejected_with (Reason.edge_below_min edge_bps minimum) contracts fees edge)
        else ok (allowed_with contracts fees edge))

unfoldable pub opening_decision : Config → List Position → TradeRequest → Result RiskDecision
opening_decision cfg ps t =
    let price = t.current_price in
    let total_exp = total_exposure ps in
    let denom = of_ℕ 1 -D price in
    let edge_per_dollar = side_probability (of_ℕ 1) t.side t.model_probability -D price in
    let remaining_for_market =
      cfg.risk.max_position_per_market_usd
      -D current_position_exposure_dollars ps t.market_ticker in
    if leb_D cfg.risk.max_total_exposure_usd total_exp
    then ok (rejected Reason.max_total_exposure_exceeded)
    else if leb_D edge_per_dollar (of_ℕ 0)
    then ok (rejected Reason.no_edge)
    else (div edge_per_dollar denom >>= λ kelly.
        let kelly_capped =
          min_D (kelly *D cfg.risk.kelly_fraction *D t.confidence)
            cfg.risk.max_kelly_size_pct_bankroll in
        if leb_D kelly_capped (of_ℕ 0)
        then ok (rejected Reason.kelly_zero_or_negative)
        else if leb_D remaining_for_market (of_ℕ 0)
        then ok (rejected Reason.per_market_cap_full)
        else (open_size cfg t kelly_capped remaining_for_market total_exp >>= λ contracts.
            if contracts == 0
            then ok (rejected Reason.size_below_one_contract)
            else edge_check cfg t contracts))

abbrev pub decide : Config → List Position → TradeRequest → Option Position → Result RiskDecision
decide cfg ps t (some existing) = ok (closing_decision cfg t existing)
decide cfg ps t none = opening_decision cfg ps t

-- From the price test on.
unfoldable pub size_trade : Config → List Position → TradeRequest → Result RiskDecision
size_trade cfg ps t =
    if leb_D t.current_price (of_ℕ 0) || leb_D (of_ℕ 1) t.current_price
    then ok (rejected Reason.price_at_extremum)
    else decide cfg ps t (closing_buy t.side (get_position t.market_ticker ps))
