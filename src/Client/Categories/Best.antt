-- ===== src/Client/Categories/Best.antt =====
-- What `_enrich_categories` of kalshi_agent/kalshi/client.py makes of each market.
use kalshi_agent.Base.{
  ℕ, ◌≡◌, refl, Bool, true, false, Option, none, some, String, List, [], ◌∷◌, map, All, contains,
  arith, Bool-cases, inl, inr, ltb, if◌then◌else◌, ap, ◌∙◌, sym,
}
use kalshi_agent.Result.{Exn, Result, ok, err, api_error}
use kalshi_agent.Wire.{Market}
use kalshi_agent.Client.Categories.{
  Cached, Cache, is_blank, after_cached, of_event, from_cache, first_loop, Enriched,
  enrich_categories,
}
use kalshi_agent.Client.Categories.Lookup.{
  answered, with_category, looked_up, behind, look_up_each_markets,
}
use kalshi_agent.Client.Categories.Missing.{
  now_needed, first_loop_markets, first_loop_adds, is_fresh, OnlyStale, first_loop-OnlyStale,
}

-- The category of a market: its own, the one in the cache, or that of its event.
abbrev pub best_of : Bool → Option Cached → Option String → Option String
best_of true (some c) answer = c.category
best_of _ _ answer = answer

abbrev pub best :
    (ℕ → Result (Option String)) → ℕ → Cache → Option ℕ → Option String → Option String
best get_event now cache none own = own
best get_event now cache (some e) own =
    if is_blank own
    then best_of (is_fresh now (cache e)) (cache e) (answered (get_event e))
    else own

abbrev pub enriched : (ℕ → Result (Option String)) → ℕ → Cache → Market → Market
enriched get_event now cache m =
    with_category m (best get_event now cache m.event_ticker m.category)

behind_cached :
    (get_event : ℕ → Result (Option String)) (now e : ℕ) (cache : Cache) (es : List ℕ) (m : Market)
    (o : Option Cached)
    → cache e ≡ o
    → is_blank m.category ≡ true
    → OnlyStale now cache es
    → now_needed (after_cached now e m o).1 es ≡ true
    → with_category
        (after_cached now e m o).0
        (looked_up get_event es (some e) (after_cached now e m o).0.category)
      ≡ with_category m (best_of (is_fresh now o) o (answered (get_event e)))
behind_cached get_event now e cache es m none q b stale h = ap (with_category m) (ground arith)
behind_cached get_event now e cache es m (some c) q b stale h =
    elim (Bool-cases (ltb now c.expiry)) [
      | inl r ↦
          let absent : contains e es ≡ false = elim (Bool-cases (contains e es)) [
            | inl p ↦ absurd (ground (arith, ap (is_fresh now) q, stale e p))
            | inr p ↦ p
          ] in
          rw (r, absent) refl
      | inr r ↦ let asked : contains e es ≡ true = ground arith in rw (r, asked, b) refl
    ]

behind_of_event :
    (get_event : ℕ → Result (Option String)) (now : ℕ) (cache : Cache) (es : List ℕ) (m : Market)
    (o : Option ℕ)
    → m.event_ticker ≡ o
    → is_blank m.category ≡ true
    → OnlyStale now cache es
    → now_needed (of_event now cache m o).1 es ≡ true
    → with_category
        (of_event now cache m o).0
        (looked_up get_event es o (of_event now cache m o).0.category)
      ≡ with_category m (best get_event now cache o m.category)
behind_of_event get_event now cache es m none q b stale h = refl
behind_of_event get_event now cache es m (some e) q b stale h =
    behind_cached get_event now e cache es m (cache e) refl b stale h ∙ (rw b refl)

after_cached_ticker :
    (now e : ℕ) (m : Market) (o : Option Cached)
    → (after_cached now e m o).0.event_ticker ≡ m.event_ticker
after_cached_ticker now e m none = refl
after_cached_ticker now e m (some c) = elim (Bool-cases (ltb now c.expiry)) [
  | inl r ↦ rw r refl
  | inr r ↦ rw r refl
]

of_event_ticker :
    (now : ℕ) (cache : Cache) (m : Market) (o : Option ℕ)
    → (of_event now cache m o).0.event_ticker ≡ m.event_ticker
of_event_ticker now cache m none = refl
of_event_ticker now cache m (some e) = after_cached_ticker now e m (cache e)

own_kept :
    (get_event : ℕ → Result (Option String)) (now : ℕ) (cache : Cache) (es : List ℕ) (o : Option ℕ)
    (own : Option String)
    → is_blank own ≡ false
    → looked_up get_event es o own ≡ best get_event now cache o own
own_kept get_event now cache es none own r = refl
own_kept get_event now cache es (some e) own r = rw r (ground arith)

behind_first :
    (get_event : ℕ → Result (Option String)) (now : ℕ) (cache : Cache) (es : List ℕ) (m : Market)
    → OnlyStale now cache es
    → now_needed (from_cache now cache m).1 es ≡ true
    → with_category (from_cache now cache m).0 (
        looked_up get_event es
          (from_cache now cache m).0.event_ticker
          (from_cache now cache m).0.category)
      ≡ enriched get_event now cache m
unfolding from_cache
behind_first get_event now cache es m stale h = elim (Bool-cases (is_blank m.category)) [
  | inl r ↦
      let asked : now_needed (of_event now cache m m.event_ticker).1 es ≡ true = rw r at h in
      let m' = (of_event now cache m m.event_ticker).0 in
      rw r (
        ap (λ t. with_category m' (looked_up get_event es t m'.category))
          (of_event_ticker now cache m m.event_ticker)
        ∙ behind_of_event get_event now cache es m m.event_ticker refl r stale asked)
  | inr r ↦
      rw r (ap (with_category m) (own_kept get_event now cache es m.event_ticker m.category r))
]

map_along :
    {A B C : Type 0} (P : A → Type 0) (g : B → C) (f : A → B) (h : A → C) (xs : List A)
    → All P xs
    → ((x : A) → P x → g (f x) ≡ h x)
    → map g (map f xs) ≡ map h xs
map_along P g f h [] ps e = refl
map_along P g f h (x ∷ xs) (p, ps) e = rw (e x p, map_along P g f h xs ps e) refl

All-again :
    {A : Type 0} (P Q : A → Type 0) (xs : List A) → ((x : A) → P x → Q x) → All P xs → All Q xs
All-again P Q [] f tt = tt
All-again P Q (x ∷ xs) f (p, ps) = (f x p, All-again P Q xs f ps)

now_needed_same :
    (xs ys : List ℕ)
    → ((e : ℕ) → contains e ys ≡ contains e xs)
    → (o : Option ℕ) → now_needed o xs ≡ true
    → now_needed o ys ≡ true
now_needed_same xs ys same none h = refl
now_needed_same xs ys same (some e) h = same e ∙ h

-- Where an event lookup fails at most with an API error, and the order of the set goes through its
-- elements, the enrichment returns and gives each market its own category if it is not blank;
-- otherwise the one that the cache has for its event and that is not out of date, or else the one
-- that the event has, and none where the lookup failed. A market with no event stays as it is.
pub enrich_categories_lem :
    (order : List ℕ → List ℕ) (get_event : ℕ → Result (Option String)) (now : ℕ) (ms : List Market)
    (cache : Cache)
    → ((es : List ℕ) (e : ℕ) → contains e (order es) ≡ contains e es)
    → ((e : ℕ) (x : Exn) → get_event e ≡ err x → x ≡ api_error)
    → ((enrich_categories order get_event now ms cache).0 ≡ ok tt)
      × ((enrich_categories order get_event now ms cache).1.markets
          ≡ map (enriched get_event now cache) ms)
unfolding enrich_categories
enrich_categories_lem order get_event now ms cache same handled =
    let needed = (first_loop now cache ms []).1 in
    let es = order needed in
    let w : Enriched = record { markets = (first_loop now cache ms []).0; cache = cache } in
    let (done, filled) = look_up_each_markets get_event handled now es w in
    let stale : OnlyStale now cache es = λ e q.
      first_loop-OnlyStale now cache ms [] (λ k p. absurd (ground arith)) e
        (sym (same needed e) ∙ q) in
    let P : Market → Type 0 = λ m. now_needed (from_cache now cache m).1 es ≡ true in
    let asked : All P ms =
      All-again _ P ms
        (λ m. now_needed_same needed es (λ e. same needed e) (from_cache now cache m).1)
        (first_loop_adds now cache ms []) in
    (
      done,
      filled
          ∙ ap (map (behind get_event handled now es)) (first_loop_markets now cache ms [])
          ∙ map_along P (behind get_event handled now es) _ _ ms asked
              (λ m. behind_first get_event now cache es m stale),
    )
