-- ===== src/Tests/Server.antt =====
-- The HTTP server and the lookup of categories at concrete inputs.
use kalshi_agent.Base.{
  ℕ, suc, ◌*◌, ◌≤◌, ◌<◌, ◌≡◌, ◌≢◌, refl, min, true, false, Option, none, some, String, List, [],
  ◌∷◌, ◌++◌, length, map, arith, ◌==◌, if◌then◌else◌,
}
use kalshi_agent.Base.Int.{pos, negsuc}
use kalshi_agent.Side.{yes_side, buy}
use kalshi_agent.Decimal.{of_ℕ, sum_D}
use kalshi_agent.Result.{Exn, Result, ok, err, api_error}
use kalshi_agent.Wire.{Market}
use kalshi_agent.Storage.{Db, Order}
use kalshi_agent.KillSwitch.{unreadable}
use kalshi_agent.Daily.{snapshot_daily_pnl}
use kalshi_agent.Client.Categories.{Cache, put, enrich_categories}
use kalshi_agent.Client.Categories.Best.{enriched, enrich_categories_lem}
use kalshi_agent.Texts.{is_space, rstrip}
use kalshi_agent.Api.Auth.{Request, bearer, is_localhost}
use kalshi_agent.Api.Auth.Tokens.{bearer_reads_token}
use kalshi_agent.Api.Server.{World, Service, post_resume, serve}
use kalshi_agent.Api.Server.Guarded.{is_public, IsTurnedAway, no_token_no_change}
use kalshi_agent.Api.Rows.{insert}
use kalshi_agent.Api.Observer.{trades}
use kalshi_agent.Api.Observer.Views.{shown, AreNewest, trades_lem}
use kalshi_agent.Api.Dashboard.{page}
use kalshi_agent.Api.Dashboard.Today.{today_shows_snapshot}
use kalshi_agent.Fills.{seconds}
use kalshi_agent.Tests.Samples.{config, db, market, same_decimal, held_position}

-- "bearer  t1 "
token_read :
    bearer (λ cs. cs) (some (98 ∷ 101 ∷ 97 ∷ 114 ∷ 101 ∷ 114 ∷ 32 ∷ 32 ∷ 116 ∷ 49 ∷ 32 ∷ []))
    ≡ some (116 ∷ 49 ∷ [])
token_read =
    bearer_reads_token (λ cs. cs) [] (101 ∷ 97 ∷ 114 ∷ 101 ∷ 114 ∷ []) 98 32 (32 ∷ []) 116 (49 ∷ [])
      (32 ∷ []) refl tt (unfold is_space in (refl, (refl, (refl, (refl, (refl, (refl, tt)))))))
      (unfold is_space in (refl, (refl, tt))) (unfold is_space in refl)
      (unfold rstrip is_space in refl) (unfold is_space in (refl, tt))

abbrev world : World
world = record {
  float_of = same_decimal;
  float_sum = λ ds. sum_D (of_ℕ 0) ds;
  float_times = λ d n. d;
  lower = λ cs. cs;
  now = 0;
  day_of = λ t. t;
  posts = false;
  naive_seconds = seconds;
  midnight = λ t. t;
  utc_day = 0;
  db_ok = true;
}

-- From 10.0.0.1 with no header.
abbrev remote : Request
remote = record { client = some (49 ∷ 48 ∷ 46 ∷ 48 ∷ 46 ∷ 48 ∷ 46 ∷ 49 ∷ []); authorization = none }

abbrev service : Service
service = record { kill = some unreadable; ingestor = record { high_water_ts = none; db = db } }

no_bearer : bearer world.lower remote.authorization ≢ some (116 ∷ [])
unfolding bearer
no_bearer h = absurd (ground arith)

remote_resume_refused :
    ((serve config world (116 ∷ []) post_resume remote service).1 ≡ service)
    × (is_public post_resume ≡ false
        → is_localhost remote ≡ false
        → IsTurnedAway (serve config world (116 ∷ []) post_resume remote service).0)
remote_resume_refused =
    no_token_no_change config world (116 ∷ []) post_resume remote service no_bearer

abbrev order : ℕ → Order
order time = record {
  created_at = time;
  client_order_id = time;
  kalshi_order_id = none;
  market_ticker = 7;
  side = yes_side;
  action = buy;
  count = 1;
  price_dollars = of_ℕ 0;
  status = "resting";
  decision_id = none;
}

abbrev three_orders : Db
three_orders = record db { orders = order 1 ∷ order 3 ∷ order 2 ∷ [] }

two_trades :
    (2 ≤ 200
      → (recent : List Order) × (older : List Order) × (trades (pos 2) three_orders
          ≡ some (map (shown three_orders) recent))
        × (length recent ≡ min 2 3)
        × AreNewest three_orders (recent ++ older))
    × (200 < 2 → trades (pos 2) three_orders ≡ none)
    × (recent : List Order) × (trades (negsuc 2) three_orders
        ≡ some (map (shown three_orders) recent))
    × (length recent ≡ 3)
    × AreNewest three_orders recent
two_trades = trades_lem three_orders 2

newest_two : trades (pos 2) three_orders ≡ some ((order 3, none) ∷ (order 2, none) ∷ [])
unfolding trades insert
newest_two = refl

-- The book has gained 3 dollars at midnight and 5 later.
abbrev gained : Db
gained = record db {
  ledger = record (db.ledger) {
    positions = record held_position { realized_pnl_dollars = of_ℕ 3 } ∷ [];
  };
}

abbrev midnights : ℕ → ℕ × ℕ
midnights day = (day * 86_400_000_000, suc day * 86_400_000_000)

abbrev afternoon : Db
afternoon = record db {
  ledger = record (db.ledger) {
    positions = record held_position { realized_pnl_dollars = of_ℕ 5 } ∷ [];
  };
  pnl_daily = (snapshot_daily_pnl same_decimal world.float_sum midnights 20 0 gained).pnl_daily;
}

afternoon_gain :
    (page world.float_sum world.float_times 20 false afternoon).today_pnl
    ≡ world.float_sum (map (λ p. p.realized_pnl_dollars) gained.ledger.positions)
afternoon_gain =
    today_shows_snapshot same_decimal world.float_sum world.float_times midnights 20 0 false gained
      afternoon tt refl

-- The event 1 is in the cache until 50, and the event 2 has a category.
abbrev cached : Cache
cached = put 1 (record { category = some "Politics"; expiry = 50 }) (λ e. none)

abbrev events : ℕ → Result (Option String)
events e = if e == 2 then ok (some "Economics") else err api_error

abbrev listed : List Market
listed =
    record market { event_ticker = some 1 }
    ∷ record market { event_ticker = some 2 }
    ∷ record market { event_ticker = some 3 }
    ∷ []

events_handled : (e : ℕ) (x : Exn) → events e ≡ err x → x ≡ api_error
events_handled e x h = ground arith

sample_enrichment :
    ((enrich_categories (λ es. es) events 10 listed cached).0 ≡ ok tt)
    × ((enrich_categories (λ es. es) events 10 listed cached).1.markets
        ≡ map (enriched events 10 cached) listed)
sample_enrichment =
    enrich_categories_lem (λ es. es) events 10 listed cached (λ es e. refl) events_handled
