-- ===== src/Execution/Halted.antt =====
-- A signal that kalshi_agent/execution.py handles while the kill switch is engaged.
use kalshi_agent.Base.{ℕ, ◌≡◌, refl, true, none, some, String, arith}
use kalshi_agent.Decimal.{Decimal}
use kalshi_agent.Result.{Result, ok, err}
use kalshi_agent.Wire.{Market, price_str_to_decimal}
use kalshi_agent.Config.{Config}
use kalshi_agent.Storage.{
  Rejection, signal_expired, market_fetch_failed, no_ask_price, zero_bankroll, market_not_active,
  risk_rejected,
}
use kalshi_agent.KillSwitch.{Switch, HaltReason, Source, is_engaged, engage}
use kalshi_agent.Risk.{
  Monitor, Now, RiskDecision, Reason, rejected, record_error, trip_on_error_spike,
}
use kalshi_agent.Risk.Trips.{engaged_rejects}
use kalshi_agent.Bankroll
use kalshi_agent.Signal.{Signal}
use kalshi_agent.Execution.{
  Agent, Inputs, Handled, reject, note_error, after_check, with_bankroll, with_price, with_market,
  handle_signal, trade_request, books_of, ask_of,
}

-- The call has sent nothing and the switch is still the same.
abbrev pub Idle : Switch → Handled → Type 0
Idle kill h = (h.sent ≡ none) × (h.agent.kill ≡ kill)

pub engaged_stays :
    (r : HaltReason) (src : Source) (now : ℕ) (kill : Switch)
    → is_engaged kill ≡ true
    → engage r src now kill ≡ kill
unfolding engage
engaged_stays r src now none h = absurd (ground arith)
engaged_stays r src now (some f) h = refl

trip_stays :
    (cfg : Config) (now utc : ℕ) (m : Monitor) (kill : Switch)
    → is_engaged kill ≡ true
    → trip_on_error_spike cfg now utc m kill ≡ kill
unfolding trip_on_error_spike engage
trip_stays cfg now utc m none h = absurd (ground arith)
trip_stays cfg now utc m (some f) h = ground arith

pub note_error_stays :
    (cfg : Config) (now : Now) (a : Agent)
    → is_engaged a.kill ≡ true
    → (note_error cfg now a).kill ≡ a.kill
unfolding note_error record_error
note_error_stays cfg now a h = trip_stays cfg now.monotonic now.utc _ a.kill h

reject-Idle : (s : Signal) (r : Rejection) (now : ℕ) (a : Agent) → Idle a.kill (reject s r now a)
unfolding reject
reject-Idle s r now a = (refl, refl)

rejected-Idle :
    (cfg : Config) (i : Inputs) (s : Signal) (price : Decimal) (a : Agent) (d : Result RiskDecision)
    (reason : Reason)
    → d ≡ ok (rejected reason)
    → Idle a.kill (after_check cfg i s price a d)
unfolding after_check
rejected-Idle cfg i s price a d reason q = rw q (reject-Idle s risk_rejected i.now.utc a)

module _ (lower : String → String) (cfg : Config) (i : Inputs) (s : Signal) where
  with_bankroll-Idle :
      (m : Market) (price : Decimal) (a : Agent) (r : Result Decimal)
      → is_engaged a.kill ≡ true
      → Idle a.kill (with_bankroll lower cfg i s m price a r)
  unfolding with_bankroll
  with_bankroll-Idle m price a (err e) h = (refl, refl)
  with_bankroll-Idle m price a (ok b) h =
      let stopped =
        engaged_rejects lower cfg i.now (books_of a.db) a.monitor (trade_request s m price b) a.kill
          h in
      rw stopped (
        ground (
          arith,
          reject-Idle s zero_bankroll i.now.utc a,
          rejected-Idle cfg i s price (record a { kill = a.kill }) _ Reason.kill_switch_engaged
              refl,
        ))

  with_price-Idle :
      (m : Market) (a : Agent) (r : Result Decimal)
      → is_engaged a.kill ≡ true
      → Idle a.kill (with_price lower cfg i s m a r)
  unfolding with_price
  with_price-Idle m a (err e) h = (refl, refl)
  with_price-Idle m a (ok price) h =
      let fetched = Bankroll.get i.now.monotonic i.balance a.bankroll in
      with_bankroll-Idle m price (record a { bankroll = fetched.1 }) fetched.0 h

  with_market-Idle :
      (a : Agent) (r : Result Market)
      → is_engaged a.kill ≡ true
      → Idle a.kill (with_market lower cfg i s a r)
  unfolding with_market
  with_market-Idle a (err e) h = ground (
    arith,
    reject-Idle s market_fetch_failed i.now.utc (note_error cfg i.now a),
    note_error_stays cfg i.now a h,
  )
  with_market-Idle a (ok m) h = ground (
    arith,
    reject-Idle s (market_not_active m.status) i.now.utc a,
    reject-Idle s no_ask_price i.now.utc a,
    with_price-Idle m a (price_str_to_decimal (ask_of s.side m)),
  )

  -- While the kill switch is engaged a signal sends no order, whatever Kalshi answers, and the
  -- switch stays as it is.
  pub halted_signal-Idle :
      (a : Agent) → is_engaged a.kill ≡ true → Idle a.kill (handle_signal lower cfg i s a)
  unfolding handle_signal
  halted_signal-Idle a h =
      ground (arith, reject-Idle s signal_expired i.now.utc a, with_market-Idle a i.market)
