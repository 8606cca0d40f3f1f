-- ===== src/Storage.antt =====
-- kalshi_agent/storage/models.py as records, and the session operations that the program uses on
-- them. Rows are kept in the order of insertion. Tickers and ids are only compared, so they are
-- numbers; times are microseconds since the epoch, and days are day numbers in the display zone.
-- A price column holds the decimal that its text denotes, and a float column the decimal that
-- `Decimal(str(x))` reads. Messages, payloads, rationales and raw responses are left out.
pub mod Positions
pub mod Schema
use kalshi_agent.Base.{
  ℕ, ◌+◌, Bool, true, false, Option, none, some, String, List, [], ◌∷◌, ◌++◌, length, ◌==◌,
  update_where, if◌then◌else◌,
}
use kalshi_agent.Base.Int.{ℤ}
use kalshi_agent.Side.{Side, Action}
use kalshi_agent.Decimal.{Decimal, dec}

pub record Position : Type 0 where
  pub market_ticker : ℕ
  pub side : Side
  pub count : ℕ
  pub avg_price_dollars : Decimal
  pub realized_pnl_dollars : Decimal
  pub updated_at : ℕ

pub record Fill : Type 0 where
  pub created_at : ℕ
  pub kalshi_order_id : ℕ
  pub market_ticker : ℕ
  pub side : Side
  pub count : ℕ
  pub price_dollars : Decimal
  pub fee_dollars : Decimal
  pub is_taker : Bool

pub record Order : Type 0 where
  pub created_at : ℕ
  pub client_order_id : ℕ
  pub kalshi_order_id : Option ℕ
  pub market_ticker : ℕ
  pub side : Side
  pub action : Action
  pub count : ℕ
  pub price_dollars : Decimal
  pub status : String
  pub decision_id : Option ℕ

-- The reasons that a decision is rejected for: those of kalshi_agent/execution.py, and that of the
-- risk monitor, given by its kind alone.
pub data Rejection : Type 0 where
  signal_expired signal_expired_preflight market_fetch_failed no_ask_price zero_bankroll : Rejection
  market_not_active : Option String → Rejection
  risk_rejected : Rejection

pub record Decision : Type 0 where
  pub id : ℕ
  pub created_at : ℕ
  pub strategy : String
  pub market_ticker : ℕ
  pub side : Side
  pub model_probability : Decimal
  pub confidence : Decimal
  pub valid_until : ℕ
  pub accepted : Bool
  pub rejection_reason : Option Rejection
  pub order_id : Option ℕ

pub data EventKind : Type 0 where
  fill_event recovery_event halt_lifted_event : EventKind
  halt_actions_event : ℤ → EventKind
  reconciliation_event : ℕ → EventKind

pub data Level : Type 0 where
  info warning : Level

pub record Event : Type 0 where
  pub kind : EventKind
  pub level : Level

pub record PnlDaily : Type 0 where
  pub day : ℕ
  pub realized_pnl : Decimal
  pub fees : Decimal
  pub trade_count : ℕ
  pub updated_at : ℕ

-- The tables that a fill writes.
pub record Ledger : Type 0 where
  pub positions : List Position
  pub fills : List Fill

pub record Db : Type 0 where
  pub ledger : Ledger
  pub orders : List Order
  pub decisions : List Decision
  pub events : List Event
  pub pnl_daily : List PnlDaily

-- `s.add(Event(kind=..., level=...))`
abbrev pub add_event : EventKind → Level → Db → Db
add_event k l db = record db { events = db.events ++ record { kind = k; level = l } ∷ [] }

-- `s.get(Position, ticker)`
unfoldable pub get_position : ℕ → List Position → Option Position
get_position t [] = none
get_position t (p ∷ ps) = if p.market_ticker == t then some p else get_position t ps

-- A changed row is written back in place, and a new one behind the others.
unfoldable pub put_position : Position → List Position → List Position
put_position q [] = q ∷ []
put_position q (p ∷ ps) =
    if p.market_ticker == q.market_ticker then q ∷ ps else p ∷ put_position q ps
