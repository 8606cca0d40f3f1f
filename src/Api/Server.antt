-- ===== src/Api/Server.antt =====
-- kalshi_agent/api/server.py: the routes that `create_app` includes and their dependencies, with
-- kalshi_agent/api/routes/health.py. A request that no route has, and the checks of query
-- parameters that FastAPI makes before a dependency runs, are left out.
pub mod Guarded
use kalshi_agent.Base.{ℕ, Bool, Option, none, some, String, List}
use kalshi_agent.Base.Int.{ℤ}
use kalshi_agent.Decimal.{Decimal}
use kalshi_agent.Result.{Exn, Result, ok, err}
use kalshi_agent.Config.{Config, Mode}
use kalshi_agent.Storage.{Position, Order, Decision, PnlDaily}
use kalshi_agent.KillSwitch.{Switch, is_engaged}
use kalshi_agent.Fills.{Ingestor}
use kalshi_agent.Reconcile.{Report}
use kalshi_agent.Texts.{Text}
use kalshi_agent.Api.Auth.{
  Request, Verdict, passes, unauthorized, type_error, require_control_auth, require_observer_auth,
}
use kalshi_agent.Api.Control.{halt, resume, Sync, trigger_reconcile}
use kalshi_agent.Api.Observer.{
  positions, trades, Period, Pnl, pnl, equity_curve, MarketView, market,
}
use kalshi_agent.Api.Dashboard.{Page, page}

-- The routes with their parameters.
pub data Route : Type 0 where
  health : Route
  get_positions : Route
  get_trades get_equity_curve : ℤ → Route
  get_pnl : Period → Route
  get_market : ℕ → Route
  post_halt : Option String → Route
  post_resume : Route
  post_reconcile : Sync → Route
  dashboard : Route

pub data Body : Type 0 where
  healthy : Mode → Bool → Bool → Body
  engaged : String → Body
  disengaged : Bool → Body
  reconciled : Report → Body
  position_rows : List Position → Body
  trade_rows : List (Order × Option Decision) → Body
  pnl_figures : Pnl → Body
  curve : List PnlDaily → Body
  market_view : MarketView → Body
  html : Page → Body

-- 200 with a body, 401, 422, 500, or no answer yet.
pub data Response : Type 0 where
  answered : Body → Response
  refused invalid failed pending : Response

-- What the routes share: the HALT file, the database and the mark of the ingestor.
pub record Service : Type 0 where
  pub kill : Switch
  pub ingestor : Ingestor

-- What the server reads from outside, whether there is a Discord notifier, and Python's floats.
pub record World : Type 0 where
  pub float_of : Decimal → Decimal
  pub float_sum : List Decimal → Decimal
  pub float_times : Decimal → ℕ → Decimal
  pub lower : Text → Text
  pub now : ℕ
  pub posts : Bool
  pub day_of : ℕ → ℕ
  pub naive_seconds : ℕ → ℕ
  pub midnight : ℕ → ℕ
  pub utc_day : ℕ
  pub db_ok : Bool

abbrev pub or_invalid {ℓ} : {A : Type ℓ} → (A → Body) → Option A → Response
or_invalid f none = invalid
or_invalid f (some a) = answered (f a)

abbrev pub reconcile_response : Option (Result Report) → Response
reconcile_response none = pending
reconcile_response (some (ok report)) = answered (reconciled report)
reconcile_response (some (err e)) = failed

module _ (cfg : Config) (w : World) where
  -- The handler of a route.
  unfoldable pub handle : Route → Service → Response × Service
  handle health s = (answered (healthy cfg.mode (is_engaged s.kill) w.db_ok), s)
  handle get_positions s = (answered (position_rows (positions s.ingestor.db)), s)
  handle (get_trades n) s = (or_invalid trade_rows (trades n s.ingestor.db), s)
  handle (get_pnl period) s =
      (answered (pnl_figures (pnl w.float_of w.day_of w.midnight period w.now s.ingestor.db)), s)
  handle (get_equity_curve days) s =
      (or_invalid curve (equity_curve w.utc_day days s.ingestor.db), s)
  handle (get_market t) s = (answered (market_view (market t s.ingestor.db)), s)
  handle (post_halt payload) s =
      let (reason, kill) = halt payload w.now s.kill in
      (answered (engaged reason), record s { kill = kill })
  handle post_resume s =
      let (was, kill) = resume s.kill in (answered (disengaged was), record s { kill = kill })
  handle (post_reconcile i) s =
      let (result, ingestor) =
        trigger_reconcile w.posts w.float_of w.naive_seconds cfg.fees.taker_rate i s.ingestor in
      (reconcile_response result, record s { ingestor = ingestor })
  handle dashboard s = (
    answered
        (html (page w.float_sum w.float_times (w.day_of w.now) (is_engaged s.kill) s.ingestor.db)),
    s,
  )

-- The dependency of the router that a route is in.
unfoldable pub dependency : (Text → Text) → Text → Route → Request → Verdict
dependency lower token health r = passes
dependency lower token dashboard r = passes
dependency lower token (post_halt _) r = require_control_auth lower token r
dependency lower token post_resume r = require_control_auth lower token r
dependency lower token (post_reconcile _) r = require_control_auth lower token r
dependency lower token _ r = require_observer_auth lower token r

abbrev pub guarded : Verdict → Response × Service → Service → Response × Service
guarded passes done s = done
guarded unauthorized done s = (refused, s)
guarded type_error done s = (failed, s)

-- `create_app`: how a request to a route is served.
unfoldable pub serve : Config → World → Text → Route → Request → Service → Response × Service
unfolding handle dependency
serve cfg w control_token route r s =
    guarded (dependency w.lower control_token route r) (handle cfg w route s) s
