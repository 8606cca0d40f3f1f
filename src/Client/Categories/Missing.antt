-- ===== src/Client/Categories/Missing.antt =====
-- Which events the first loop of `_enrich_categories` in kalshi_agent/kalshi/client.py asks for.
use kalshi_agent.Base.{
  ℕ, ◌≡◌, refl, Bool, true, false, Option, none, some, List, [], ◌∷◌, map, All, contains, arith,
  Bool-cases, inl, inr, ◌⊎◌, ltb, ◌==◌, ap, ◌∙◌, sym,
}
use kalshi_agent.Wire.{Market}
use kalshi_agent.Client.Categories.{
  Cached, Cache, is_blank, after_cached, of_event, from_cache, add_needed, first_loop,
}

-- The first loop.
abbrev pub now_needed : Option ℕ → List ℕ → Bool
now_needed none es = true
now_needed (some e) es = contains e es

pub first_loop_markets :
    (now : ℕ) (cache : Cache) (ms : List Market) (needed : List ℕ)
    → (first_loop now cache ms needed).0 ≡ map (λ m. (from_cache now cache m).0) ms
unfolding first_loop
first_loop_markets now cache [] needed = refl
first_loop_markets now cache (m ∷ ms) needed =
    rw (first_loop_markets now cache ms (add_needed (from_cache now cache m).1 needed)) refl

add_needed_keeps :
    (o : Option ℕ) (needed : List ℕ) (e : ℕ)
    → contains e needed ≡ true
    → contains e (add_needed o needed) ≡ true
add_needed_keeps none needed e h = h
add_needed_keeps (some k) needed e h = ground arith

-- What is needed stays needed, and so is what the loop finds missing.
first_loop_keeps :
    (now : ℕ) (cache : Cache) (ms : List Market) (needed : List ℕ) (e : ℕ)
    → contains e needed ≡ true
    → contains e (first_loop now cache ms needed).1 ≡ true
unfolding first_loop
first_loop_keeps now cache [] needed e h = h
first_loop_keeps now cache (m ∷ ms) needed e h =
    let o = (from_cache now cache m).1 in
    first_loop_keeps now cache ms (add_needed o needed) e (add_needed_keeps o needed e h)

first_loop_has :
    (now : ℕ) (cache : Cache) (ms : List Market) (needed : List ℕ) (o : Option ℕ)
    → now_needed o (first_loop now cache ms (add_needed o needed)).1 ≡ true
first_loop_has now cache ms needed none = refl
first_loop_has now cache ms needed (some e) =
    first_loop_keeps now cache ms (add_needed (some e) needed) e (ground arith)

pub first_loop_adds :
    (now : ℕ) (cache : Cache) (ms : List Market) (needed : List ℕ)
    → All (λ m. now_needed (from_cache now cache m).1 (first_loop now cache ms needed).1 ≡ true) ms
unfolding first_loop
first_loop_adds now cache [] needed = tt
first_loop_adds now cache (m ∷ ms) needed =
    let o = (from_cache now cache m).1 in
    (first_loop_has now cache ms needed o, first_loop_adds now cache ms (add_needed o needed))

abbrev pub is_fresh : ℕ → Option Cached → Bool
is_fresh now none = false
is_fresh now (some c) = ltb now c.expiry

abbrev pub OnlyStale : ℕ → Cache → List ℕ → Type 0
OnlyStale now cache es = (e : ℕ) → contains e es ≡ true → is_fresh now (cache e) ≡ false

after_cached_stale :
    (now k e : ℕ) (m : Market) (o : Option Cached)
    → (after_cached now k m o).1 ≡ some e
    → (k ≡ e) × (is_fresh now o ≡ false)
after_cached_stale now k e m none q = (ground arith, refl)
after_cached_stale now k e m (some c) q = ground arith

of_event_stale :
    (now e : ℕ) (cache : Cache) (m : Market) (o : Option ℕ)
    → (of_event now cache m o).1 ≡ some e
    → is_fresh now (cache e) ≡ false
of_event_stale now e cache m none q = absurd (ground arith)
of_event_stale now e cache m (some k) q =
    let (same, stale) = after_cached_stale now k e m (cache k) q in
    ap (λ z. is_fresh now (cache z)) (sym same) ∙ stale

from_cache_stale :
    (now e : ℕ) (cache : Cache) (m : Market)
    → (from_cache now cache m).1 ≡ some e
    → is_fresh now (cache e) ≡ false
unfolding from_cache
from_cache_stale now e cache m q = elim (Bool-cases (is_blank m.category)) [
  | inl r ↦ of_event_stale now e cache m m.event_ticker (ground arith)
  | inr r ↦ absurd (ground arith)
]

add_needed_from :
    (o : Option ℕ) (needed : List ℕ) (e : ℕ)
    → contains e (add_needed o needed) ≡ true
    → (contains e needed ≡ true) ⊎ (o ≡ some e)
add_needed_from none needed e q = inl q
add_needed_from (some k) needed e q = elim (Bool-cases (e == k)) [
  | inl r ↦ inr (ap some (ground arith))
  | inr r ↦ inl (ground arith)
]

add_needed-OnlyStale :
    (now : ℕ) (cache : Cache) (m : Market) (needed : List ℕ)
    → OnlyStale now cache needed
    → OnlyStale now cache (add_needed (from_cache now cache m).1 needed)
add_needed-OnlyStale now cache m needed h e q = elim (add_needed_from _ needed e q) [
  | inl old ↦ h e old
  | inr new ↦ from_cache_stale now e cache m new
]

pub first_loop-OnlyStale :
    (now : ℕ) (cache : Cache) (ms : List Market) (needed : List ℕ)
    → OnlyStale now cache needed
    → OnlyStale now cache (first_loop now cache ms needed).1
unfolding first_loop
first_loop-OnlyStale now cache [] needed h = h
first_loop-OnlyStale now cache (m ∷ ms) needed h =
    first_loop-OnlyStale now cache ms (add_needed (from_cache now cache m).1 needed)
      (add_needed-OnlyStale now cache m needed h)
