-- ===== src/Assessor/Discovery.antt =====
-- Which markets kalshi_agent/strategies/llm_market_assessor.py finds.
use kalshi_agent.Base.{
  ℕ, zero, suc, ◌≤◌, ◌<◌, ◌≡◌, refl, sym, Bool, true, false, Option, none, some, String, List, [],
  ◌∷◌, ◌++◌, length, length-append, max, All, arith, inl, inr, Bool-cases, leb,
}
use kalshi_agent.Result.{Result, ok, err, api_error}
use kalshi_agent.Wire.{Market}
use kalshi_agent.Config.{AssessorConfig}
use kalshi_agent.Storage.{Decision}
use kalshi_agent.Assessor.{
  Pages, is_candidate, scan_page, after_scan, after_list, discover_pages, discover,
}

module _ (lower : String → String) (cfg : AssessorConfig) (now : ℕ) (rows : List Decision) where
  -- The market passes the filters and has no recent decision of the strategy.
  abbrev pub IsCandidate : Market → Type 0
  IsCandidate m = is_candidate lower cfg now rows m ≡ true

  abbrev limit : ℕ
  limit = max 1 cfg.max_markets_per_tick

  -- Candidates only, and not too many; before the limit is reached there is room for one more.
  abbrev Fits : List Market × Bool → Type 0
  Fits (found, full) =
      All IsCandidate found × (length found ≤ limit) × (full ≡ false → length found < limit)

  All-snoc :
      (ms : List Market) (m : Market)
      → All IsCandidate ms
      → IsCandidate m
      → All IsCandidate (ms ++ m ∷ [])
  All-snoc [] m all here = (here, tt)
  All-snoc (x ∷ ms) m (first, all) here = (first, All-snoc ms m all here)

  scan_page-Fits :
      (ms found : List Market)
      → All IsCandidate found
      → length found < limit
      → Fits (scan_page lower cfg now rows ms found)
  unfolding scan_page
  scan_page-Fits [] found all room = (all, omega arith, λ _. room)
  scan_page-Fits (m ∷ ms) found all room = elim (Bool-cases (is_candidate lower cfg now rows m)) [
    | inr q ↦ rw q (scan_page-Fits ms found all room)
    | inl q ↦
        let all' = All-snoc found m all q in
        elim (Bool-cases (leb cfg.max_markets_per_tick (length (found ++ m ∷ [])))) [
          | inl r ↦
              rw q (
                rw r
                  (all', omega (arith, length-append found (m ∷ [])), λ h. absurd (ground arith)))
          | inr r ↦ rw q (rw r (scan_page-Fits ms (found ++ m ∷ []) all' (ground arith)))
        ]
  ]

  -- What is found when a page has been scanned, given what the calls behind it find.
  after_scan-Fits :
      (scan : List Market × Bool) (cursor : Option ℕ) (next : List Market → Result (List Market))
      (ms : List Market)
      → Fits scan
      → ((found : List Market)
          → All IsCandidate found
          → length found < limit
          → next found ≡ ok ms
          → All IsCandidate ms × (length ms ≤ limit))
      → after_scan lower cfg now rows scan cursor next ≡ ok ms
      → All IsCandidate ms × (length ms ≤ limit)
  unfolding after_scan
  after_scan-Fits (found, true) cursor next ms (all, small, _) later e =
      let same : found ≡ ms = ground arith in rw (sym same) (all, small)
  after_scan-Fits (found, false) none next ms (all, small, _) later e =
      let same : found ≡ ms = ground arith in rw (sym same) (all, small)
  after_scan-Fits (found, false) (some c) next ms (all, small, room) later e =
      later found all (room refl) e

  after_list-Fits :
      (found : List Market) (answer : Result (List Market × Option ℕ))
      (next : List Market → Result (List Market)) (ms : List Market)
      → All IsCandidate found
      → length found < limit
      → ((found' : List Market)
          → All IsCandidate found'
          → length found' < limit
          → next found' ≡ ok ms
          → All IsCandidate ms × (length ms ≤ limit))
      → after_list lower cfg now rows found answer next ≡ ok ms
      → All IsCandidate ms × (length ms ≤ limit)
  unfolding after_list
  after_list-Fits found (ok (markets, cursor)) next ms all room later e =
      after_scan-Fits (scan_page lower cfg now rows markets found) cursor next ms
        (scan_page-Fits markets found all room) later e
  after_list-Fits found (err api_error) next ms all room later e =
      let same : found ≡ ms = ground arith in rw (sym same) (all, omega arith)
  after_list-Fits found (err _) next ms all room later e = absurd (ground arith)

  discover_pages-Fits :
      (n k : ℕ) (answers : Pages) (found ms : List Market)
      → All IsCandidate found
      → length found < limit
      → discover_pages lower cfg now rows n k answers found ≡ ok ms
      → All IsCandidate ms × (length ms ≤ limit)
  unfolding discover_pages
  discover_pages-Fits zero k answers found ms all room e =
      let same : found ≡ ms = ground arith in rw (sym same) (all, omega arith)
  discover_pages-Fits (suc n) k answers found ms all room e =
      after_list-Fits found (answers k) (discover_pages lower cfg now rows n (suc k) answers) ms all
        room (λ found' all' room'. discover_pages-Fits n (suc k) answers found' ms all' room') e

  -- A discovery that returns has found only markets that pass every filter and have no recent
  -- decision of the strategy, and not more of them than the limit per tick, or one where that is 0.
  pub discovered_markets_fit :
      (answers : Pages) (ms : List Market)
      → discover lower cfg now rows answers ≡ ok ms
      → All IsCandidate ms × (length ms ≤ max 1 cfg.max_markets_per_tick)
  unfolding discover
  discovered_markets_fit answers ms e =
      discover_pages-Fits cfg.discovery_max_pages 0 answers [] ms tt (omega arith) e
