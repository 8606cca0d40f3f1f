-- ===== src/Startup/Exits.antt =====
-- With which configurations kalshi_agent/__main__.py gets past the choice of the strategy.
use kalshi_agent.Base.{
  ◌≡◌, ◌↔◌, ◌∙◌, sym, ap, String, refl, Bool, true, false, not, ◌&&◌, Option, none, some, is_some,
  List, [], ◌∷◌, arith,
}
use kalshi_agent.Result.{ok}
use kalshi_agent.Config.{
  Mode, Active, placeholder, llm_assessor, AssessorConfig, PlaceholderConfig, Config, load_config,
  startup_config, apply_test_mode, validate_fractions, validate_strategy_mode,
}
use kalshi_agent.Startup.{
  Strategy, assessor, is_empty, or_whitelist, build_assessor, build_placeholder, build,
  select_strategy,
}

-- The block of the active strategy is there.
abbrev pub has_block : Config → Active → Bool
has_block c placeholder = is_some c.strategy.placeholder
has_block c llm_assessor = is_some c.strategy.llm_assessor

has_block_lem :
    (over : Option Mode) (test_mode : Bool) (raw c : Config)
    → startup_config over test_mode raw ≡ ok c
    → has_block c c.strategy.active ≡ true
unfolding startup_config load_config validate_fractions validate_strategy_mode apply_test_mode
has_block_lem over test_mode raw c h = ground arith

-- No list of the assessor's block has anything.
abbrev pub lists_nothing : Option AssessorConfig → Bool
lists_nothing none = true
lists_nothing (some la) = is_empty la.tickers && is_empty la.categories

abbrev pub is_assessor : Active → Bool
is_assessor llm_assessor = true
is_assessor placeholder = false

not_some : {A : Type 0} (o : Option A) → is_some o ≡ false → o ≡ none
not_some none h = refl
not_some (some a) h = absurd (ground arith)

or_whitelist_own : (cs w : List String) → is_empty cs ≡ false → or_whitelist cs w ≡ cs
or_whitelist_own [] w h = absurd (ground arith)
or_whitelist_own (c ∷ cs) w h = refl

left_false : (a b : Bool) → a ≡ true → a && b ≡ false → b ≡ false
left_false true b h k = k
left_false false b h k = absurd (ground arith)

assessor_built :
    (c : Config) (la : Option AssessorConfig)
    → is_some (build_assessor c la) ≡ not (lists_nothing la)
assessor_built c none = refl
assessor_built c (some la) = ground arith

placeholder_built : (p : Option PlaceholderConfig) → is_some (build_placeholder p) ≡ is_some p
placeholder_built none = refl
placeholder_built (some p) = refl

-- An assessor with no tickers has the categories of its own block, and some.
abbrev pub CanDiscover : Config → Option Strategy → Type 0
CanDiscover c s =
    (a : AssessorConfig)
    → s ≡ some (assessor a)
    → is_empty a.tickers ≡ true
    → (la : AssessorConfig) × (c.strategy.llm_assessor ≡ some la)
      × (a.categories ≡ la.categories)
      × (is_empty a.categories ≡ false)

built :
    (has_key : Bool) (c : Config) (active : Active)
    → has_block c active ≡ true
    → (build has_key c active ≡ none)
      ↔ ((active ≡ llm_assessor) × (has_key && not (lists_nothing c.strategy.llm_assessor) ≡ false))
built has_key c placeholder h = (
  λ q. absurd (ground (arith, placeholder_built c.strategy.placeholder)),
  λ e. absurd (ground (arith, e.0)),
)
built false c llm_assessor h = (λ q. (refl, refl), λ e. refl)
built true c llm_assessor h = (
  λ q. (refl, ground (arith, assessor_built c c.strategy.llm_assessor)),
  λ e. not_some _ (ground (arith, e.1, assessor_built c c.strategy.llm_assessor)),
)

assessor-CanDiscover :
    (c : Config) (la : Option AssessorConfig) (a : AssessorConfig)
    → build_assessor c la ≡ some (assessor a)
    → is_empty a.tickers ≡ true
    → (l : AssessorConfig) × (la ≡ some l)
      × (a.categories ≡ l.categories)
      × (is_empty a.categories ≡ false)
assessor-CanDiscover c none a q e = absurd (ground arith)
assessor-CanDiscover c (some l) a q e =
    let w = c.markets.whitelist_categories in
    let same : (a.tickers ≡ l.tickers)
        × (a.categories ≡ or_whitelist l.categories w)
        × (is_empty l.tickers && is_empty l.categories ≡ false) =
      ground arith in
    let named : is_empty l.categories ≡ false =
      left_false (is_empty l.tickers) (is_empty l.categories) (sym (ap is_empty same.0) ∙ e)
        same.2 in
    let own = same.1 ∙ or_whitelist_own l.categories w named in
    (l, refl, own, ap is_empty own ∙ named)

placeholder-CanDiscover :
    (p : Option PlaceholderConfig) (a : AssessorConfig)
    → build_placeholder p ≡ some (assessor a)
    → ⊥
placeholder-CanDiscover none a q = ground arith
placeholder-CanDiscover (some p) a q = ground arith

build-CanDiscover :
    (has_key : Bool) (c : Config) (active : Active) → CanDiscover c (build has_key c active)
build-CanDiscover has_key c placeholder a q e =
    absurd (placeholder-CanDiscover c.strategy.placeholder a q)
build-CanDiscover false c llm_assessor a q e = absurd (ground arith)
build-CanDiscover true c llm_assessor a q e = assessor-CanDiscover c c.strategy.llm_assessor a q e

-- With a configuration that a start has gone through with, the program ends with the exit code 2
-- exactly if the assessor is active and its key is missing, or its block names neither tickers nor
-- categories. An assessor that is started with no tickers discovers in the categories of its own
-- block, and it has some: the whitelist of the markets never stands in for them.
pub exits_on_assessor :
    (over : Option Mode) (test_mode has_key : Bool) (raw c : Config)
    → startup_config over test_mode raw ≡ ok c
    → ((select_strategy has_key c ≡ none) ↔ (
        (c.strategy.active ≡ llm_assessor)
        × (has_key && not (lists_nothing c.strategy.llm_assessor) ≡ false)))
      × CanDiscover c (select_strategy has_key c)
unfolding select_strategy
exits_on_assessor over test_mode has_key raw c h = (
  built has_key c c.strategy.active (has_block_lem over test_mode raw c h),
  build-CanDiscover has_key c c.strategy.active,
)
