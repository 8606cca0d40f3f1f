-- ===== src/Api/Control.antt =====
-- kalshi_agent/api/routes/control.py, with `trigger_reconcile` of kalshi_agent/__main__.py. A
-- payload is the text of its reason, if it has one.
use kalshi_agent.Base.{ℕ, Bool, Option, none, some, String, List, or_default}
use kalshi_agent.Decimal.{Decimal}
use kalshi_agent.Result.{Result, ok, err}
use kalshi_agent.Wire.{KalshiPosition}
use kalshi_agent.Storage.{Db}
use kalshi_agent.KillSwitch.{Switch, engage, disengage, operator, http}
use kalshi_agent.Fills.{Ingestor, Outcome, waiting, returned, raised, Answer, catch_up}
use kalshi_agent.Reconcile.{Report, reconcile}

-- `halt`: the reason in the reply, and the switch.
unfoldable pub halt : Option String → ℕ → Switch → String × Switch
halt payload now kill =
    let reason = or_default payload "manual_http" in
    (reason, engage (operator reason) http now kill)

-- `resume`
unfoldable pub resume : Switch → Bool × Switch
resume kill = disengage kill

-- What Kalshi answers to a reconciliation and to the catch-up behind it.
pub record Sync : Type 0 where
  pub now : ℕ
  pub positions : Result (List KalshiPosition)
  pub fills : List Answer

-- Behind the catch-up; none while an answer has not come.
abbrev pub after_catch_up : Report → Outcome × Ingestor → Option (Result Report) × Ingestor
after_catch_up report (waiting, s) = (none, s)
after_catch_up report (returned _, s) = (some (ok report), s)
after_catch_up report (raised e, s) = (some (err e), s)

module _ (posts : Bool) (float_of : Decimal → Decimal) (naive_seconds : ℕ → ℕ)
    (rate : Decimal) where
  unfoldable pub after_reconcile :
      Sync → Option ℕ → Result Report × Db → Option (Result Report) × Ingestor
  after_reconcile i high (err e, db) = (some (err e), record { high_water_ts = high; db = db })
  after_reconcile i high (ok report, db) = after_catch_up report (
      catch_up posts float_of rate i.now naive_seconds i.fills
        (record { high_water_ts = high; db = db }))

  -- `trigger_reconcile`
  unfoldable pub trigger_reconcile : Sync → Ingestor → Option (Result Report) × Ingestor
  trigger_reconcile i s =
      after_reconcile i s.high_water_ts (reconcile float_of i.now i.positions s.db)
