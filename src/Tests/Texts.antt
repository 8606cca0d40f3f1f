-- ===== src/Tests/Texts.antt =====
-- Prices, log records, replies, paths and the choice of the strategy at concrete inputs.
use kalshi_agent.Base.{
  ℕ, ◌≡◌, ◌↔◌, refl, not, ◌&&◌, false, Option, none, some, String, [], ◌∷◌, ◌++◌, ◌==◌,
  if◌then◌else◌,
}
use kalshi_agent.Base.Int.{negsuc}
use kalshi_agent.Decimal.{Decimal, quantize}
use kalshi_agent.Result.{ok}
use kalshi_agent.Texts.{Text}
use kalshi_agent.Wire.{price_str_to_decimal, price_decimal_to_str}
use kalshi_agent.Wire.Prices.{price_text, show_decimal}
use kalshi_agent.Wire.Prices.RoundTrip.{printed_price_reads_back}
use kalshi_agent.Journal.Redact.{Fields, field, end, str, list, other, cons, nil, redact}
use kalshi_agent.Journal.Redact.Secrets.{CleanFields, held_fields, redact-Clean}
use kalshi_agent.Llm.Parse.{parse_json, or_error}
use kalshi_agent.Llm.Parse.Embedded.{object_of, embedded_object_parsed}
use kalshi_agent.Config.{placeholder, llm_assessor, startup_config}
use kalshi_agent.Startup.{select_strategy}
use kalshi_agent.Startup.Exits.{lists_nothing, CanDiscover, exits_on_assessor}
use kalshi_agent.Tests.Samples.{same_text, config}

-- -0.65 with two places, as it is printed.
abbrev debt : Decimal
debt = record { coef = negsuc 64; places = 2 }

abbrev printed : Decimal
printed = record { coef = negsuc 6499; places = 4 }

debt_text_given : price_decimal_to_str debt ≡ ok printed
unfolding price_decimal_to_str quantize
debt_text_given = refl

-- "-0.6500"
debt_text : show_decimal printed ≡ 45 ∷ 48 ∷ 46 ∷ 54 ∷ 53 ∷ 48 ∷ 48 ∷ []
unfolding show_decimal
debt_text = refl

debt_read : price_str_to_decimal (price_text (some (show_decimal printed))) ≡ ok printed
debt_read = printed_price_reads_back debt printed debt_text_given

-- A key, and a list that holds a tuple.
abbrev entry : Fields
entry = field "event" (str "signed") (
    field "api_key" (str "abc") (field "args" (list (cons (other (cons (str "def") nil)) nil)) end))

entry-CleanFields :
    CleanFields same_text same_text (redact same_text same_text entry)
    × (held_fields same_text (redact same_text same_text entry) ≡ held_fields same_text entry)
    × (((s : String) → same_text (same_text s) ≡ same_text s)
        → redact same_text same_text (redact same_text same_text entry)
          ≡ redact same_text same_text entry)
entry-CleanFields = redact-Clean same_text same_text entry

-- Only "{}" is JSON.
abbrev loads : Text → Option ℕ
loads (a ∷ b ∷ []) = if a == 123 && b == 125 then some 7 else none
loads _ = none

-- "ok {} ."
found :
    let content = (111 ∷ 107 ∷ 32 ∷ []) ++ (object_of [] ++ (32 ∷ 46 ∷ [])) in
    (loads content ≡ none → parse_json loads content ≡ or_error loads (loads (object_of [])))
    × ((a : ℕ) → loads content ≡ some a → parse_json loads content ≡ ok a)
found =
    embedded_object_parsed loads (111 ∷ 107 ∷ 32 ∷ []) [] (32 ∷ 46 ∷ []) (refl, (refl, (refl, tt)))
      (refl, (refl, tt))

-- "/m?a"
abbrev path : Text
path = 47 ∷ 109 ∷ 63 ∷ 97 ∷ []

config_started : startup_config none false config ≡ ok config
unfolding startup_config
config_started = refl

placeholder_starts :
    ((select_strategy false config ≡ none) ↔ (
      (placeholder ≡ llm_assessor)
      × (false && not (lists_nothing config.strategy.llm_assessor) ≡ false)))
    × CanDiscover config (select_strategy false config)
placeholder_starts = exits_on_assessor none false false config config config_started
