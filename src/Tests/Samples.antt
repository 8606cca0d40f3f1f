-- ===== src/Tests/Samples.antt =====
-- Data of the examples: a configuration, a market book, trades, fills and answers of Kalshi.
use kalshi_agent.Base.{ℕ, true, false, Option, none, some, String, [], ◌∷◌}
use kalshi_agent.Base.Int.{negsuc}
use kalshi_agent.Side.{Side, yes_side, Action}
use kalshi_agent.Decimal.{Decimal, dec, of_ℕ}
use kalshi_agent.Result.{ok}
use kalshi_agent.Wire.{absent, decimal, Market, KalshiFill, KalshiPosition, OrderResponse}
use kalshi_agent.Config.{Config, paper, placeholder}
use kalshi_agent.Storage.{Position, Ledger, Db}
use kalshi_agent.Risk.{Now, Books, TradeRequest, fresh_monitor}
use kalshi_agent.Signal.{Signal}
use kalshi_agent.Bankroll.{Bankroll}
use kalshi_agent.Execution.{Agent, Inputs}

abbrev pub same_text : String → String
same_text s = s

abbrev pub same_decimal : Decimal → Decimal
same_decimal d = d

abbrev pub config : Config
config = record {
  mode = paper;
  kalshi = record {
    base_url_paper = "https://demo/trade-api/v2";
    base_url_live = "https://live/trade-api/v2";
    ws_url_paper = "wss://demo";
    ws_url_live = "wss://live";
  };
  risk = record {
    max_position_per_market_usd = of_ℕ 25;
    max_total_exposure_usd = of_ℕ 100;
    max_daily_loss_usd = of_ℕ 50;
    per_order_max_contracts = 20;
    max_orders_per_minute = 2;
    min_edge_after_fees_bps = 200;
    kelly_fraction = dec 25 2;
    max_kelly_size_pct_bankroll = dec 5 2;
    error_spike_threshold = 2;
    error_spike_window_seconds = 60;
  };
  fees = record { taker_rate = dec 7 2; assume_taker = true };
  markets = record { whitelist_categories = []; whitelist_tickers = [] };
  strategy = record {
    active = placeholder;
    placeholder = some (record { test_ticker = 7; emit_interval_seconds = 3600 });
    llm_assessor = none;
    allow_placeholder_live = false;
  };
}

abbrev pub now : Now
now = record { monotonic = 500_000_000; utc = 1_700_000_000_000_000; local_day = 19_675 }

-- 30 contracts of YES at 0.45 in market 7.
abbrev pub held_position : Position
held_position = record {
  market_ticker = 7;
  side = yes_side;
  count = 30;
  avg_price_dollars = dec 4500 4;
  realized_pnl_dollars = of_ℕ 0;
  updated_at = 0;
}

abbrev pub empty_books : Books
empty_books = record { positions = []; pnl_daily = [] }

abbrev pub held_books : Books
held_books = record { positions = held_position ∷ []; pnl_daily = [] }

abbrev pub trade : Side → Decimal → TradeRequest
trade side price = record {
  market_ticker = 7;
  side = side;
  model_probability = dec 70 2;
  current_price = price;
  confidence = dec 90 2;
  bankroll_dollars = of_ℕ 100;
  market_category = none;
}

abbrev pub empty_ledger : Ledger
empty_ledger = record { positions = []; fills = [] }

abbrev pub db : Db
db = record { ledger = empty_ledger; orders = []; decisions = []; events = []; pnl_daily = [] }

-- A fill of 10 contracts at 0.65.
abbrev pub fill : Action → Option ℕ → KalshiFill
fill action time = record {
  order_id = 41;
  ticker = 7;
  side = yes_side;
  action = action;
  count = 10;
  yes_price_dollars = decimal (dec 6500 4);
  no_price_dollars = absent;
  is_taker = true;
  created_time = time;
}

abbrev pub remote_position : KalshiPosition
remote_position = record {
  ticker = 8;
  position = negsuc 4;
  realized_pnl_dollars = decimal (dec 125 2);
}

abbrev pub bankroll : Bankroll
bankroll = record { ttl = 10_000_000; fallback = of_ℕ 50; cached = none; last_fetch = 0 }

abbrev pub signal : Signal
signal = record {
  market_ticker = 7;
  side = yes_side;
  model_probability = dec 70 2;
  confidence = dec 90 2;
  valid_until = 1_700_000_600_000_000;
  strategy_name = "llm_assessor";
}

abbrev pub market : Market
market = record {
  ticker = 7;
  event_ticker = none;
  category = none;
  status = some "active";
  yes_ask_dollars = decimal (dec 5000 4);
  no_ask_dollars = decimal (dec 5200 4);
  close_time = none;
  volume = some 900;
}

abbrev pub response : OrderResponse
response = record { order_id = 91; client_order_id = some 555; status = "executed" }

abbrev pub agent : Agent
agent = record { db = db; kill = none; monitor = fresh_monitor; bankroll = bankroll }

abbrev pub inputs : Inputs
inputs = record {
  now = now;
  preflight = 1_700_000_000_500_000;
  market = ok market;
  balance = ok (decimal (of_ℕ 100));
  client_order_id = 555;
  order = ok response;
}
