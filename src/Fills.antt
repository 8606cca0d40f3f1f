-- ===== src/Fills.antt =====
-- kalshi_agent/fills.py: the ingestion of fills. The answers of `list_fills` come as a list, one
-- for each call that the loop makes; where it ends, the loop is still waiting for an answer.
-- Discord posts, but for the price that their text reads, and the messages of events are left out.
pub mod Pages
pub mod HighWater
pub mod Poll
use kalshi_agent.Base.{
  ℕ, ◌+◌, ◌/◌, Bool, true, false, not, ◌&&◌, ◌||◌, Option, none, some, List, [], ◌∷◌, max,
  or_default, ◌==◌, ltb, if◌then◌else◌, String,
}
use text.Mathlib.Text.{◌==◌ as str_eq}
use kalshi_agent.Decimal.{Decimal, of_ℕ, eqb_D}
use kalshi_agent.Result.{Exn, Result, ok, err, api_error, ◌>>=◌}
use kalshi_agent.Wire.{KalshiFill, PriceText, absent, decimal, price_str_to_decimal}
use kalshi_agent.Storage.{Ledger, Db, Fill, Order, Event, fill_event, info, add_event}
use kalshi_agent.Positions.{apply_fill}

-- Seconds since the epoch.
unfoldable pub seconds : ℕ → ℕ
seconds t = t / 1_000_000

abbrev pub max_seconds : List Fill → Option ℕ → Option ℕ
max_seconds [] best = best
max_seconds (r ∷ rows) none = max_seconds rows (some r.created_at)
max_seconds (r ∷ rows) (some b) = max_seconds rows (some (max r.created_at b))

abbrev seconds_or_zero : (ℕ → ℕ) → Option ℕ → ℕ
seconds_or_zero naive_seconds none = 0
seconds_or_zero naive_seconds (some t) = naive_seconds t

-- `_load_high_water`. SQLite gives back a datetime without its zone, and `naive_seconds` is what its
-- `timestamp()` makes of that in the zone of the server.
unfoldable pub load_high_water : (ℕ → ℕ) → List Fill → ℕ
load_high_water naive_seconds rows = seconds_or_zero naive_seconds (max_seconds rows none)

abbrev is_closed : String → Bool
is_closed s = str_eq s "filled" || str_eq s "cancelled"

abbrev has_kalshi_id : ℕ → Option ℕ → Bool
has_kalshi_id i none = false
has_kalshi_id i (some k) = k == i

-- The first order with the Kalshi id is marked filled, unless it is closed.
unfoldable pub mark_filled : ℕ → List Order → List Order
mark_filled i [] = []
mark_filled i (o ∷ os) =
    if has_kalshi_id i o.kalshi_order_id
    then (if is_closed o.status then o else record o { status = "filled" }) ∷ os
    else o ∷ mark_filled i os

-- What a call of `_fetch_and_apply` has done so far.
pub record Progress : Type 0 where
  pub applied : ℕ
  pub max_ts_seen : ℕ
  pub db : Db

abbrev or_price : PriceText → PriceText → PriceText
or_price absent next = next
or_price p next = p

-- `f.yes_price_dollars or f.no_price_dollars or '0'`
abbrev posted_price : KalshiFill → PriceText
posted_price f = or_price f.yes_price_dollars (or_price f.no_price_dollars (decimal (of_ℕ 0)))

-- Whether the text of the Discord post can be written: it reads a price again, which may be that of
-- the other side. `posts` says whether there is a notifier.
unfoldable pub post_fill : Bool → KalshiFill → Decimal → Result (Unit {0})
post_fill false f realized = ok tt
post_fill true f realized =
    if eqb_D realized (of_ℕ 0)
    then ok tt
    else (price_str_to_decimal (posted_price f) >>= λ _. ok tt)

module _ (posts : Bool) (float_of : Decimal → Decimal) (taker_rate : Decimal) (now : ℕ) where
  -- The body of the loop over a page, behind `apply_fill`.
  unfoldable pub note_fill : KalshiFill → Progress → Decimal → Ledger → Progress
  note_fill f p realized ledger =
      let db : Db = record (p.db) { ledger = ledger } in
      if eqb_D realized (of_ℕ 0) then record p { db = db } else record {
        applied = p.applied + 1;
        max_ts_seen = max p.max_ts_seen (seconds (or_default f.created_time now));
        db = add_event fill_event info (record db { orders = mark_filled f.order_id db.orders });
      }

  unfoldable pub ingest_fill : KalshiFill → Progress → Result Progress
  ingest_fill f p = apply_fill float_of taker_rate now f p.db.ledger >>= λ done.
      post_fill posts f done.0 >>= λ _. ok (note_fill f p done.0 done.1)

  unfoldable pub ingest_page : List KalshiFill → Progress → Result Progress
  ingest_page [] p = ok p
  ingest_page (f ∷ fs) p = ingest_fill f p >>= λ p'. ingest_page fs p'

-- The state of a `FillIngestor` with the database.
pub record Ingestor : Type 0 where
  pub high_water_ts : Option ℕ
  pub db : Db

pub data Outcome : Type 0 where
  waiting : Outcome
  returned : ℕ → Outcome
  raised : Exn → Outcome

-- The end of `_fetch_and_apply`.
unfoldable pub finish : Option ℕ → Progress → Outcome × Ingestor
finish high p = (
  returned p.applied,
  record {
    high_water_ts =
        if ltb (or_default high 0) p.max_ts_seen then some (p.max_ts_seen + 1) else high;
    db = p.db;
  },
)

-- One answer of `list_fills`: the fills of a page and the next cursor.
abbrev pub Answer : Type 0
Answer = Result (List KalshiFill × Option ℕ)

-- What follows a page: an exception leaves the page uncommitted, the last page ends the loop, and
-- any other is followed by the next call.
unfoldable pub after_page :
    Option ℕ
    → Result Progress
    → Option ℕ
    → Progress
    → (Progress → Outcome × Ingestor)
    → Outcome × Ingestor
after_page high (err e) cursor p next = (raised e, record { high_water_ts = high; db = p.db })
after_page high (ok p') none p next = finish high p'
after_page high (ok p') (some c) p next = next p'

module _ (posts : Bool) (float_of : Decimal → Decimal) (taker_rate : Decimal) (now : ℕ)
    (high : Option ℕ) where
  -- The `while` loop; a page is committed when all its fills are applied.
  unfoldable pub fetch_pages : List Answer → Progress → Outcome × Ingestor
  fetch_pages [] p = (waiting, record { high_water_ts = high; db = p.db })
  fetch_pages (err api_error ∷ rest) p = finish high p
  fetch_pages (err e ∷ rest) p = (raised e, record { high_water_ts = high; db = p.db })
  fetch_pages (ok ([], cursor) ∷ rest) p = finish high p
  fetch_pages (ok (f ∷ fs, cursor) ∷ rest) p =
      after_page high (ingest_page posts float_of taker_rate now (f ∷ fs) p) cursor p
        (fetch_pages rest)

module _ (posts : Bool) (float_of : Decimal → Decimal) (taker_rate : Decimal) (now : ℕ) where
  unfoldable pub fetch_and_apply : List Answer → Ingestor → Outcome × Ingestor
  fetch_and_apply answers s =
      fetch_pages posts float_of taker_rate now s.high_water_ts answers
        (record { applied = 0; max_ts_seen = or_default s.high_water_ts 0; db = s.db })

  unfoldable pub catch_up : (ℕ → ℕ) → List Answer → Ingestor → Outcome × Ingestor
  catch_up naive_seconds answers s =
      let high = or_default s.high_water_ts (load_high_water naive_seconds s.db.ledger.fills) in
      fetch_and_apply answers (record s { high_water_ts = some high })
