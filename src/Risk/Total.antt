-- ===== src/Risk/Total.antt =====
-- `check_trade` of kalshi_agent/safety/risk_monitor.py always comes to a decision.
use kalshi_agent.Base.{ℕ, ◌≡◌, false, String, List, arith, inl, inr}
use kalshi_agent.Decimal.{Decimal, of_ℕ, leb_D, quotient, ◌*D◌, ◌-D◌, min_D}
use kalshi_agent.Decimal.Nonzero.{positive_coef, complement_nonzero, div_defined}
use kalshi_agent.Result.{Exn, Result, ok, err, Result-cases}
use kalshi_agent.Config.{Config}
use kalshi_agent.Storage.{Position}
use kalshi_agent.Fees.{side_probability, edge_after_fees_dollars}
use kalshi_agent.KillSwitch.{Switch}
use kalshi_agent.Risk.{
  Monitor, Now, Books, TradeRequest, check_trade, size_trade, opening_decision, open_size,
  edge_check, total_exposure, current_position_exposure_dollars,
}

-- The call returns, and does not raise.
abbrev pub Returns {ℓ} : {A : Type ℓ} → Result A → Type ℓ
Returns {A = A} r = (a : A) × (r ≡ ok a)

edge_check_no_raise :
    (cfg : Config) (t : TradeRequest) (n : ℕ) (x : Exn) → edge_check cfg t n ≡ err x → ⊥
unfolding edge_check
edge_check_no_raise cfg t n x e =
    let capital = t.current_price *D of_ℕ n in
    let edge =
      edge_after_fees_dollars n t.model_probability t.current_price t.side cfg.fees.assume_taker
        cfg.fees.taker_rate in
    ground (arith, div_defined edge capital, positive_coef capital)

module _ (cfg : Config) (ps : List Position) (t : TradeRequest) where
  open_size_no_raise :
      (k m y : Decimal) (x : Exn)
      → leb_D t.current_price (of_ℕ 0) ≡ false
      → open_size cfg t k m y ≡ err x
      → ⊥
  unfolding open_size
  open_size_no_raise k m y x above e =
      let size = min_D (k *D t.bankroll_dollars) m in
      ground (
        arith,
        div_defined (min_D size (cfg.risk.max_total_exposure_usd -D y)) t.current_price
            (positive_coef t.current_price above),
      )

  opening_decision_no_raise :
      (x : Exn)
      → leb_D t.current_price (of_ℕ 0) ≡ false
      → leb_D (of_ℕ 1) t.current_price ≡ false
      → opening_decision cfg ps t ≡ err x
      → ⊥
  unfolding opening_decision
  opening_decision_no_raise x above below e =
      let edge = side_probability (of_ℕ 1) t.side t.model_probability -D t.current_price in
      let denom = of_ℕ 1 -D t.current_price in
      let kelly = quotient edge denom in
      let capped =
        min_D (kelly *D cfg.risk.kelly_fraction *D t.confidence)
          cfg.risk.max_kelly_size_pct_bankroll in
      let room =
        cfg.risk.max_position_per_market_usd
        -D current_position_exposure_dollars ps t.market_ticker in
      elim (Result-cases (open_size cfg t capped room (total_exposure ps))) [
        | inl (n, s) ↦ ground (
          arith,
          div_defined edge denom (complement_nonzero t.current_price below),
          edge_check_no_raise cfg t n x,
        )
        | inr (y, s) ↦ open_size_no_raise capped room (total_exposure ps) y above s
      ]

  size_trade_no_raise : (x : Exn) → size_trade cfg ps t ≡ err x → ⊥
  unfolding size_trade
  size_trade_no_raise x e = ground (arith, opening_decision_no_raise x)

-- No trade request makes the check raise: the guards on the price keep every division defined.
pub check_trade-Returns :
    (lower : String → String) (cfg : Config) (now : Now) (books : Books) (mon : Monitor)
    (t : TradeRequest) (kill : Switch)
    → Returns (check_trade lower cfg now books mon t kill).0
check_trade-Returns lower cfg now books mon t kill =
    elim (Result-cases (check_trade lower cfg now books mon t kill).0) [
      | inl r ↦ r
      | inr (x, e) ↦
          absurd (unfold check_trade in ground (arith, size_trade_no_raise cfg books.positions t x))
    ]
