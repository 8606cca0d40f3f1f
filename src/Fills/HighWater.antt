-- ===== src/Fills/HighWater.antt =====
-- The high-water mark of kalshi_agent/fills.py.
use kalshi_agent.Base.{
  ℕ, ◌+◌, ◌≤◌, ◌<◌, ◌≡◌, refl, false, Option, none, some, List, [], ◌∷◌, max, or_default, arith,
  Bool,
}
use kalshi_agent.Decimal.{Decimal, of_ℕ, eqb_D}
use kalshi_agent.Result.{Exn, Result, ok, err, api_error}
use kalshi_agent.Wire.{KalshiFill}
use kalshi_agent.Storage.{Ledger}
use kalshi_agent.Positions.{apply_fill}
use kalshi_agent.Fills.{
  post_fill, Progress, note_fill, ingest_fill, ingest_page, Answer, Outcome, waiting, returned,
  raised, Ingestor, finish, after_page, fetch_pages, fetch_and_apply, seconds,
}

-- The mark does not fall, and stays where the call raises or still waits.
abbrev pub KeepsMark : Option ℕ → Outcome × Ingestor → Type 0
KeepsMark high (out, s) =
    (or_default high 0 ≤ or_default s.high_water_ts 0)
    × ((e : Exn) → out ≡ raised e → s.high_water_ts ≡ high)
    × (out ≡ waiting → s.high_water_ts ≡ high)

after_page_mark :
    (high : Option ℕ) (result : Result Progress) (cursor : Option ℕ) (p : Progress)
    (next : Progress → Outcome × Ingestor)
    → ((q : Progress) → KeepsMark high (next q))
    → KeepsMark high (after_page high result cursor p next)
unfolding after_page finish
after_page_mark high (err e) cursor p next keep = ground arith
after_page_mark high (ok p') none p next keep = ground arith
after_page_mark high (ok p') (some c) p next keep = keep p'

module _ (posts : Bool) (float_of : Decimal → Decimal) (rate : Decimal) (now : ℕ) where
  fetch_pages_step :
      (high : Option ℕ) (f : KalshiFill) (fs : List KalshiFill) (c : Option ℕ) (rest : List Answer)
      (p : Progress)
      → fetch_pages posts float_of rate now high (ok (f ∷ fs, c) ∷ rest) p
        ≡ after_page high
            (ingest_page posts float_of rate now (f ∷ fs) p)
            c
            p
            (fetch_pages posts float_of rate now high rest)
  unfolding fetch_pages
  fetch_pages_step high f fs c rest p = refl

  -- Whatever the answers, the mark never falls; it stays where the call raises or still waits.
  pub fetch_pages_mark :
      (high : Option ℕ) (answers : List Answer) (p : Progress)
      → KeepsMark high (fetch_pages posts float_of rate now high answers p)
  fetch_pages_mark high [] p = unfold fetch_pages in ground arith
  fetch_pages_mark high (ok ([], c) ∷ rest) p = unfold fetch_pages finish in ground arith
  fetch_pages_mark high (ok (f ∷ fs, c) ∷ rest) p = rw fetch_pages_step (
      after_page_mark high (ingest_page posts float_of rate now (f ∷ fs) p) c p
        (fetch_pages posts float_of rate now high rest) (fetch_pages_mark high rest))
  fetch_pages_mark high (err api_error ∷ rest) p = unfold fetch_pages finish in ground arith
  fetch_pages_mark high (err _ ∷ rest) p = unfold fetch_pages in ground arith

  page_of_one :
      (f : KalshiFill) (p : Progress) (r : Decimal) (l : Ledger)
      → apply_fill float_of rate now f p.db.ledger ≡ ok (r, l)
      → post_fill posts f r ≡ ok tt
      → ingest_page posts float_of rate now (f ∷ []) p
        ≡ ok (note_fill posts float_of rate now f p r l)
  unfolding ingest_page ingest_fill
  page_of_one f p r l e t = rw (e, t)

  note_fill_counts :
      (f : KalshiFill) (p : Progress) (r : Decimal) (l : Ledger) (ts : ℕ)
      → f.created_time ≡ some ts
      → eqb_D r (of_ℕ 0) ≡ false
      → ((note_fill posts float_of rate now f p r l).applied ≡ p.applied + 1)
        × ((note_fill posts float_of rate now f p r l).max_ts_seen ≡ max p.max_ts_seen (seconds ts))
  unfolding note_fill
  note_fill_counts f p r l ts dated nz = ground arith

  -- A poll that applies one fill, of a later second than the mark and with a nonzero gain, moves
  -- the mark to the second after that of the fill, from which on the next poll asks for fills.
  poll_passes_second :
      (f : KalshiFill) (rest : List Answer) (s : Ingestor) (ts : ℕ) (r : Decimal) (l : Ledger)
      → f.created_time ≡ some ts
      → apply_fill float_of rate now f s.db.ledger ≡ ok (r, l)
      → post_fill posts f r ≡ ok tt
      → eqb_D r (of_ℕ 0) ≡ false
      → or_default s.high_water_ts 0 < seconds ts
      → let (out, s') = fetch_and_apply posts float_of rate now (ok (f ∷ [], none) ∷ rest) s in
        (out ≡ returned 1) × (s'.high_water_ts ≡ some (seconds ts + 1))
  unfolding fetch_and_apply after_page finish
  poll_passes_second f rest s ts r l dated e t nz newer =
      let start : Progress = record {
        applied = 0;
        max_ts_seen = or_default s.high_water_ts 0;
        db = s.db;
      } in
      rw (fetch_pages_step, page_of_one f start r l e t)
        (ground (arith, note_fill_counts f start r l ts dated nz))
