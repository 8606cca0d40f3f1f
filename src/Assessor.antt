-- ===== src/Assessor.antt =====
-- kalshi_agent/strategies/llm_market_assessor.py. Kalshi and the language model are what they answer:
-- pages of markets, markets by ticker, and a reply for a market. Prompts, rationales, logs and the
-- counts of outcomes are left out; the numbers of a reply are finite, and stand for the decimals that
-- `Decimal(str(x))` makes of the floats.
pub mod Discovery
pub mod Emission
use kalshi_agent.Base.{
  ℕ, zero, suc, ◌+◌, ◌*◌, Bool, true, false, not, ◌&&◌, ◌||◌, Option, none, some, String, List, [],
  ◌∷◌, ◌++◌, length, any, map, or_default, leb, ltb, ◌==◌, if◌then◌else◌,
}
use text.Mathlib.Text.{◌==◌ as str_eq}
use kalshi_agent.Side.{Side, yes_side, no_side}
use kalshi_agent.Decimal.{Decimal, of_ℕ, ◌-D◌, leb_D, ltb_D, quantize}
use kalshi_agent.Result.{Exn, Result, ok, err, api_error, llm_error, ◌>>=◌}
use kalshi_agent.Wire.{PriceText, Market, price_str_to_decimal}
use kalshi_agent.Config.{AssessorConfig}
use kalshi_agent.Storage.{Decision}
use kalshi_agent.Signal.{Signal}
use kalshi_agent.Risk.{text_in, is_empty}
use kalshi_agent.Execution.{is_open, has_text}

abbrev pub strategy_name : String
strategy_name = "llm_market_assessor"

abbrev pub second : ℕ
second = 1_000_000

-- `_was_recently_signalled`
unfoldable pub was_recently_signalled : AssessorConfig → ℕ → List Decision → ℕ → Bool
was_recently_signalled cfg now rows t =
    any
      (λ d.
        d.market_ticker == t
        && str_eq d.strategy strategy_name
        && leb now (d.created_at + cfg.min_seconds_between_signals_per_ticker * second))
      rows

pub data Unfit : Type 0 where
  status no_ask_price category low_volume imminent_close : Unfit

-- `volume is not None and volume < minimum`
abbrev pub is_low_volume : AssessorConfig → Option ℕ → Bool
is_low_volume cfg none = false
is_low_volume cfg (some v) = ltb v cfg.min_volume_contracts

abbrev pub is_imminent : ℕ → Option ℕ → Bool
is_imminent cutoff none = false
is_imminent cutoff (some t) = ltb t cutoff

abbrev pub is_other_category : (String → String) → AssessorConfig → Option String → Bool
is_other_category lower cfg c =
    not (is_empty cfg.categories)
    && not (text_in (lower (or_default c "")) (map lower cfg.categories))

-- `_reject_reason`
unfoldable pub reject_reason : (String → String) → AssessorConfig → ℕ → Market → Option Unfit
reject_reason lower cfg close_cutoff m =
    if not (is_open lower m)
    then some status
    else if not (has_text m.yes_ask_dollars) || not (has_text m.no_ask_dollars)
    then some no_ask_price
    else if is_other_category lower cfg m.category
    then some category
    else if is_low_volume cfg m.volume
    then some low_volume
    else if is_imminent close_cutoff m.close_time
    then some imminent_close
    else none

-- The test that `_discover` puts a market to.
abbrev pub is_candidate : (String → String) → AssessorConfig → ℕ → List Decision → Market → Bool
is_candidate lower cfg now rows m =
    elim (reject_reason lower cfg (now + cfg.min_hours_to_close) m) [
      | some _ ↦ false
      | none ↦ not (was_recently_signalled cfg now rows m.ticker)
    ]

-- What `list_markets` answers, call by call: a page and the next cursor.
abbrev pub Pages : Type 0
Pages = ℕ → Result (List Market × Option ℕ)

module _ (lower : String → String) (cfg : AssessorConfig) (now : ℕ) (rows : List Decision) where
  -- The loop over a page: the candidates, and whether there are enough of them.
  unfoldable pub scan_page : List Market → List Market → List Market × Bool
  scan_page [] found = (found, false)
  scan_page (m ∷ ms) found =
      let fits = is_candidate lower cfg now rows m in
      let found' = if fits then found ++ m ∷ [] else found in
      let rest = scan_page ms found' in
      if fits && leb cfg.max_markets_per_tick (length found') then (found', true) else rest

  -- What follows a page.
  unfoldable pub after_scan :
      List Market × Bool → Option ℕ → (List Market → Result (List Market)) → Result (List Market)
  after_scan (found, true) cursor next = ok found
  after_scan (found, false) none next = ok found
  after_scan (found, false) (some c) next = next found

  -- The answer of a call of `list_markets`.
  unfoldable pub after_list :
      List Market
      → Result (List Market × Option ℕ)
      → (List Market → Result (List Market))
      → Result (List Market)
  after_list found (ok (markets, cursor)) next = after_scan (scan_page markets found) cursor next
  after_list found (err api_error) next = ok found
  after_list found (err e) next = err e

  -- The loop of `_discover` from the call `k` on, with the answer of each call, and `n` calls that
  -- may still be made.
  unfoldable pub discover_pages : ℕ → ℕ → Pages → List Market → Result (List Market)
  discover_pages zero k answers found = ok found
  discover_pages (suc n) k answers found =
      after_list found (answers k) (discover_pages n (suc k) answers)

  unfoldable pub discover : Pages → Result (List Market)
  discover answers = discover_pages cfg.discovery_max_pages 0 answers []

  -- The manual tickers of `_resolve_markets`.
  unfoldable pub after_fetch : Result Market → Result (List Market) → Result (List Market)
  after_fetch (ok m) rest = rest >>= λ ms. ok (m ∷ ms)
  after_fetch (err api_error) rest = rest
  after_fetch (err e) rest = err e

  unfoldable pub fetch_tickers : (ℕ → Result Market) → List ℕ → Result (List Market)
  fetch_tickers get_market [] = ok []
  fetch_tickers get_market (t ∷ ts) =
      let rest = fetch_tickers get_market ts in
      if was_recently_signalled cfg now rows t then rest else after_fetch (get_market t) rest

  unfoldable pub resolve_markets : (ℕ → Result Market) → Pages → Result (List Market)
  resolve_markets get_market answers =
      if is_empty cfg.tickers then discover answers else fetch_tickers get_market cfg.tickers

-- What `chat_json` answers: an object without the two numbers, or the numbers; with the time at which
-- the clock is read for the signal behind them.
pub data Reply : Type 0 where
  bad_schema : Reply
  assessed : ℕ → Decimal → Decimal → Reply

pub data Verdict : Type 0 where
  out_of_range below_confidence below_edge : Verdict
  signalled : Side → Verdict

abbrev pub in_unit : Decimal → Bool
in_unit d = leb_D (of_ℕ 0) d && leb_D d (of_ℕ 1)

-- The decision on an assessment.
unfoldable pub verdict : AssessorConfig → Decimal → Decimal → Decimal → Decimal → Verdict
verdict cfg prob conf yes_edge no_edge =
    if not (in_unit prob) || not (in_unit conf)
    then out_of_range
    else if ltb_D conf cfg.min_confidence
    then below_confidence
    else if leb_D cfg.min_edge yes_edge && leb_D no_edge yes_edge
    then signalled yes_side
    else if leb_D cfg.min_edge no_edge
    then signalled no_side
    else below_edge

module _ (lower : String → String) (cfg : AssessorConfig) where
  abbrev pub signal_for : ℕ → Market → Decimal → Decimal → Verdict → List Signal
  signal_for now m prob conf (signalled side) =
      record {
        market_ticker = m.ticker;
        side = side;
        model_probability = prob;
        confidence = conf;
        valid_until = now + cfg.signal_ttl_minutes * (60 * second);
        strategy_name = strategy_name;
      }
      ∷ []
  signal_for now m prob conf _ = []

  -- From the reply of the language model on; the log line rounds the two edges to four decimals.
  unfoldable pub after_reply : Market → Decimal → Decimal → Result Reply → Result (List Signal)
  after_reply m yes_ask no_ask (err llm_error) = ok []
  after_reply m yes_ask no_ask (err e) = err e
  after_reply m yes_ask no_ask (ok bad_schema) = ok []
  after_reply m yes_ask no_ask (ok (assessed now prob conf)) =
      let yes_edge = prob -D yes_ask in
      let no_edge = of_ℕ 1 -D prob -D no_ask in
      quantize yes_edge >>= λ _. quantize no_edge >>= λ _.
      ok (signal_for now m prob conf (verdict cfg prob conf yes_edge no_edge))

  -- The body of the loop over the markets.
  unfoldable pub assess : (Market → Result Reply) → Market → Result (List Signal)
  assess chat m =
      if not (is_open lower m)
      then ok []
      else if not (has_text m.yes_ask_dollars) || not (has_text m.no_ask_dollars)
      then ok []
      else (price_str_to_decimal m.yes_ask_dollars >>= λ yes_ask.
          price_str_to_decimal m.no_ask_dollars >>= λ no_ask. after_reply m yes_ask no_ask (chat m))

  unfoldable pub assess_all : (Market → Result Reply) → List Market → Result (List Signal)
  assess_all chat [] = ok []
  assess_all chat (m ∷ ms) =
      assess chat m >>= λ signals. assess_all chat ms >>= λ rest. ok (signals ++ rest)

-- `generate_signals`
unfoldable pub generate_signals :
    (String → String)
    → AssessorConfig
    → ℕ
    → List Decision
    → (ℕ → Result Market)
    → Pages
    → (Market → Result Reply)
    → Result (List Signal)
generate_signals lower cfg now rows get_market answers chat =
    resolve_markets lower cfg now rows get_market answers >>= λ markets.
    assess_all lower cfg chat markets
