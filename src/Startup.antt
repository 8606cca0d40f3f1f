-- ===== src/Startup.antt =====
-- kalshi_agent/__main__.py: the choice of the strategy in `amain`. `has_key` says whether the
-- secrets have a key for OpenRouter.
pub mod Exits
use kalshi_agent.Base.{
  ℕ, Bool, true, false, not, ◌&&◌, Option, none, some, String, List, [], ◌∷◌, if◌then◌else◌,
}
use kalshi_agent.Config.{
  Active, placeholder, llm_assessor, AssessorConfig, PlaceholderConfig, Config,
}

-- The strategies with what they are built from.
pub data Strategy : Type 0 where
  assessor : AssessorConfig → Strategy
  placeholder_strategy : PlaceholderConfig → Strategy

abbrev pub is_empty {ℓ} : {A : Type ℓ} → List A → Bool
is_empty [] = true
is_empty (_ ∷ _) = false

-- `la.categories or config.markets.whitelist_categories`
abbrev pub or_whitelist : List String → List String → List String
or_whitelist [] whitelist = whitelist
or_whitelist (c ∷ cs) whitelist = c ∷ cs

-- The strategy, or none where the program ends with the exit code 2.
abbrev pub build_assessor : Config → Option AssessorConfig → Option Strategy
build_assessor c none = none
build_assessor c (some la) =
    if is_empty la.tickers && is_empty la.categories
    then none
    else some (
        assessor
          (record la { categories = or_whitelist la.categories c.markets.whitelist_categories }))

abbrev pub build_placeholder : Option PlaceholderConfig → Option Strategy
build_placeholder none = none
build_placeholder (some p) = some (placeholder_strategy p)

abbrev pub build : Bool → Config → Active → Option Strategy
build has_key c llm_assessor =
    if not has_key then none else build_assessor c c.strategy.llm_assessor
build has_key c placeholder = build_placeholder c.strategy.placeholder

unfoldable pub select_strategy : Bool → Config → Option Strategy
select_strategy has_key c = build has_key c c.strategy.active
