-- ===== src/Client/Categories.antt =====
-- kalshi_agent/kalshi/client.py: `_enrich_categories` with its cache, and the listings that call it.
-- `none` for an event ticker stands for a missing or empty one. `get_event` gives the category of
-- an event as the API answers; `order` is the order in which a set of tickers is gone through.
mod Lookup
mod Missing
pub mod Best
use kalshi_agent.Base.{
  ℕ, ◌+◌, ◌*◌, Bool, true, false, not, ◌&&◌, Option, none, some, String, List, [], ◌∷◌, map,
  contains, ltb, ◌==◌, if◌then◌else◌,
}
use text.Mathlib.Text.{◌==◌ as str_eq}
use kalshi_agent.Result.{Exn, Result, ok, err, api_error}
use kalshi_agent.Wire.{Market}

pub record Cached : Type 0 where
  pub category : Option String
  pub expiry : ℕ

-- `_event_category_cache`
abbrev pub Cache : Type 0
Cache = ℕ → Option Cached

abbrev pub put : ℕ → Cached → Cache → Cache
put e c cache k = if k == e then some c else cache k

-- `_event_category_ttl_seconds`, in microseconds.
abbrev pub ttl : ℕ
ttl = 3600 * 1000000

-- `not category`
abbrev pub is_blank : Option String → Bool
is_blank none = true
is_blank (some s) = str_eq s ""

-- Behind the look into the cache: the market, and the event to be looked up.
abbrev pub after_cached : ℕ → ℕ → Market → Option Cached → Market × Option ℕ
after_cached now e m none = (m, some e)
after_cached now e m (some c) =
    if ltb now c.expiry then (record m { category = c.category }, none) else (m, some e)

abbrev pub of_event : ℕ → Cache → Market → Option ℕ → Market × Option ℕ
of_event now cache m none = (m, none)
of_event now cache m (some e) = after_cached now e m (cache e)

-- The body of the first loop.
unfoldable pub from_cache : ℕ → Cache → Market → Market × Option ℕ
from_cache now cache m =
    if not (is_blank m.category) then (m, none) else of_event now cache m m.event_ticker

abbrev pub add_needed : Option ℕ → List ℕ → List ℕ
add_needed none needed = needed
add_needed (some e) needed = if contains e needed then needed else e ∷ needed

-- The first loop: the markets, and the set of events that are needed.
unfoldable pub first_loop : ℕ → Cache → List Market → List ℕ → List Market × List ℕ
first_loop now cache [] needed = ([], needed)
first_loop now cache (m ∷ ms) needed =
    let (m', e) = from_cache now cache m in
    let (ms', needed') = first_loop now cache ms (add_needed e needed) in (m' ∷ ms', needed')

abbrev pub has_event : ℕ → Option ℕ → Bool
has_event e none = false
has_event e (some k) = k == e

abbrev pub fill_category : ℕ → Option String → Market → Market
fill_category e c m =
    if has_event e m.event_ticker && is_blank m.category then record m { category = c } else m

-- The markets, which the loops change in place, and the cache.
pub record Enriched : Type 0 where
  pub markets : List Market
  pub cache : Cache

unfoldable pub store : ℕ → ℕ → Option String → Enriched → Enriched
store now e c w = record {
  markets = map (fill_category e c) w.markets;
  cache = put e (record { category = c; expiry = now + ttl }) w.cache;
}

-- The answer for one event, and the rest of the second loop.
unfoldable pub after_event :
    ℕ
    → ℕ
    → Result (Option String)
    → Enriched
    → (Enriched → Result (Unit {0}) × Enriched)
    → Result (Unit {0}) × Enriched
after_event now e (ok c) w next = next (store now e c w)
after_event now e (err api_error) w next = next (store now e none w)
after_event now e (err x) w next = (err x, w)

unfoldable pub look_up_each :
    (ℕ → Result (Option String)) → ℕ → List ℕ → Enriched → Result (Unit {0}) × Enriched
look_up_each get_event now [] w = (ok tt, w)
look_up_each get_event now (e ∷ es) w =
    after_event now e (get_event e) w (look_up_each get_event now es)

-- The market object, which the loops have changed in place.
abbrev pub changed : Market → List Market → Market
changed m [] = m
changed m (x ∷ _) = x

module _ (order : List ℕ → List ℕ) (get_event : ℕ → Result (Option String)) (now : ℕ) where
  -- `_enrich_categories`
  unfoldable pub enrich_categories : List Market → Cache → Result (Unit {0}) × Enriched
  enrich_categories ms cache =
      let (ms', needed) = first_loop now cache ms [] in
      look_up_each get_event now (order needed) (record { markets = ms'; cache = cache })

  abbrev pub after_enrich {ℓ} :
      {A : Type ℓ} → (List Market → A) → Result (Unit {0}) × Enriched → Result A × Cache
  after_enrich f (ok _, w) = (ok (f w.markets), w.cache)
  after_enrich f (err x, w) = (err x, w.cache)

  -- `list_markets`, behind `_request`: the markets of the page and the cursor.
  unfoldable pub list_markets {ℓ} :
      {C : Type ℓ} → Result (List Market × C) → Cache → Result (List Market × C) × Cache
  list_markets (err x) cache = (err x, cache)
  list_markets (ok (ms, cursor)) cache =
      after_enrich (λ out. (out, cursor)) (enrich_categories ms cache)

  -- `get_market`, behind `_request`.
  unfoldable pub get_market : Result Market → Cache → Result Market × Cache
  get_market (err x) cache = (err x, cache)
  get_market (ok m) cache = after_enrich (changed m) (enrich_categories (m ∷ []) cache)
