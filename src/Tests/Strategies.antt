-- ===== src/Tests/Strategies.antt =====
-- The assessor at concrete inputs.
use kalshi_agent.Base.{
  ◌≤◌, ◌≡◌, refl, some, [], ◌∷◌, length, max, All, ◌==◌, if◌then◌else◌, ℕ, ◌+◌, ◌-◌,
}
use kalshi_agent.Base.Int.{◌*ℤ◌, ◌+ℤ◌, ◌-ℤ◌}
use kalshi_agent.Side.{no_side}
use kalshi_agent.Decimal.{
  dec, leb_D, ltb_D, ◌-D◌, ◌+D◌, neg, digit_count, excess, fix, fix_magnitude, half_even, quantize,
  to_4_places,
}
use kalshi_agent.Result.{Result, ok, err, api_error}
use kalshi_agent.Wire.{Market, price_str_to_decimal}
use kalshi_agent.Config.{AssessorConfig}
use kalshi_agent.Signal.{Signal}
use kalshi_agent.Assessor.{
  Reply, assessed, Pages, discover, discover_pages, after_list, after_scan, scan_page,
  reject_reason, was_recently_signalled, assess_all, assess, after_reply, verdict, strategy_name,
}
use kalshi_agent.Assessor.Discovery.{IsCandidate, discovered_markets_fit}
use kalshi_agent.Assessor.Emission.{IsGrounded, assess_all-IsGrounded}
use kalshi_agent.Llm.{Attempt, reply, empty, object, chat_json}
use kalshi_agent.Llm.Retries.{Ends, chat_json-Ends}
use kalshi_agent.Tests.Samples.{same_text, market}

abbrev assessor : AssessorConfig
assessor = record {
  tickers = [];
  categories = [];
  max_markets_per_tick = 1;
  min_volume_contracts = 100;
  min_hours_to_close = 7_200_000_000;
  discovery_max_pages = 5;
  min_edge = dec 4 2;
  min_confidence = dec 6 1;
  signal_ttl_minutes = 10;
  min_seconds_between_signals_per_ticker = 1800;
}

-- A page with a market of too little volume and two good ones; the next call fails.
abbrev pages : Pages
pages n =
    if n == 0
    then ok (record market { volume = some 5 } ∷ market ∷ market ∷ [], some 1)
    else err api_error

one_market : discover same_text assessor 500 [] pages ≡ ok (market ∷ [])
unfolding discover discover_pages after_list after_scan scan_page reject_reason
    was_recently_signalled
one_market = refl

one_market_fits :
    All (IsCandidate same_text assessor 500 []) (market ∷ []) × (length (market ∷ []) ≤ max 1 1)
one_market_fits = discovered_markets_fit same_text assessor 500 [] pages (market ∷ []) one_market

-- The language model gives 0.30, so NO at 0.52 has an edge of 0.18.
abbrev chat : Market → Result Reply
chat m = ok (assessed 500 (dec 30 2) (dec 80 2))

abbrev no_signal : Signal
no_signal = record {
  market_ticker = 7;
  side = no_side;
  model_probability = dec 30 2;
  confidence = dec 80 2;
  valid_until = 600_000_500;
  strategy_name = strategy_name;
}

market_assessed : assess_all same_text assessor chat (market ∷ []) ≡ ok (no_signal ∷ [])
unfolding assess_all assess after_reply verdict price_str_to_decimal quantize to_4_places leb_D
    ltb_D ◌-D◌ ◌+D◌ neg ◌*ℤ◌ ◌+ℤ◌ ◌-ℤ◌ digit_count excess fix fix_magnitude half_even
market_assessed = refl

no_signal-IsGrounded : All (IsGrounded same_text assessor chat) (no_signal ∷ [])
no_signal-IsGrounded =
    assess_all-IsGrounded same_text assessor chat (market ∷ []) (no_signal ∷ []) market_assessed

-- A rate limit, an empty completion, and then the object 5.
abbrev llm_calls : ℕ → Attempt ℕ
llm_calls n =
    if n == 0 then reply 429 empty else if n == 1 then reply 200 empty else reply 200 (object 5)

chat-Ends : Ends 3 6 llm_calls (max 1 3 + max 1 6 - 1) (chat_json 3 6 llm_calls)
chat-Ends = chat_json-Ends 3 6 llm_calls
