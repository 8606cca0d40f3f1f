-- ===== src/Scheduler/Twice.antt =====
-- The catch-up of fills behind a reconciliation, in kalshi_agent/scheduler.py.
use kalshi_agent.Base.{
  ℕ, ◌≡◌, ◌∙◌, refl, ap, true, false, none, List, [], ◌∷◌, any, arith, or_default, ◌==◌, Bool,
}
use kalshi_agent.Base.Int.{◌+ℤ◌}
use kalshi_agent.Side.{buy}
use kalshi_agent.Decimal.{Decimal}
use kalshi_agent.Result.{ok}
use kalshi_agent.Wire.{KalshiPosition, KalshiFill}
use kalshi_agent.Storage.{Db, Ledger}
use kalshi_agent.Positions.{same_fill, apply_new_fill, apply_fill}
use kalshi_agent.Positions.Book.{signed_count, holding, buy_moves_holding}
use kalshi_agent.Fills.{
  post_fill, Progress, note_fill, ingest_fill, ingest_page, Answer, Ingestor, finish, after_page,
  fetch_pages, fetch_and_apply, catch_up, load_high_water,
}
use kalshi_agent.Reconcile.{Work, reconcile_positions, reconcile}
use kalshi_agent.Reconcile.Mirror.{remote_holding, reconciled_mirrors_kalshi}
use kalshi_agent.Scheduler.{after_reconcile, tick_reconcile}

module _ (posts : Bool) (float_of : Decimal → Decimal) (naive_seconds : ℕ → ℕ) (rate : Decimal)
    (now : ℕ) where
  note_fill_ledger :
      (f : KalshiFill) (p : Progress) (r : Decimal) (l : Ledger)
      → (note_fill posts float_of rate now f p r l).db.ledger ≡ l
  unfolding note_fill
  note_fill_ledger f p r l = ground arith

  ingested :
      (f : KalshiFill) (p : Progress) (r : Decimal) (l : Ledger)
      → apply_fill float_of rate now f p.db.ledger ≡ ok (r, l)
      → post_fill posts f r ≡ ok tt
      → ingest_page posts float_of rate now (f ∷ []) p
        ≡ ok (note_fill posts float_of rate now f p r l)
  unfolding ingest_page ingest_fill
  ingested f p r l e t = rw (e, t) refl

  -- A page of one new fill, and no further page.
  caught_up :
      (f : KalshiFill) (rest : List Answer) (s : Ingestor) (r : Decimal) (l : Ledger)
      → apply_fill float_of rate now f s.db.ledger ≡ ok (r, l)
      → post_fill posts f r ≡ ok tt
      → (catch_up posts float_of rate now naive_seconds (ok (f ∷ [], none) ∷ rest) s).1.db.ledger
        ≡ l
  unfolding catch_up fetch_and_apply fetch_pages after_page finish
  caught_up f rest s r l e t =
      let p : Progress = record {
        applied = 0;
        max_ts_seen = or_default s.high_water_ts (load_high_water naive_seconds s.db.ledger.fills);
        db = s.db;
      } in
      rw (ingested f p r l e t) (note_fill_ledger f p r l)

  new_fill :
      (f : KalshiFill) (db : Ledger)
      → any (same_fill now f) db.fills ≡ false
      → apply_fill float_of rate now f db ≡ apply_new_fill float_of rate now f db
  unfolding apply_fill
  new_fill f db h = rw h refl

  reconciled_first :
      (remote : List KalshiPosition) (answers : List Answer) (s : Ingestor) (w : Work)
      → reconcile_positions float_of now remote s.db.ledger.positions ≡ ok w
      → (db : Db) × (tick_reconcile posts float_of naive_seconds rate now (ok remote) answers s
          ≡ (catch_up posts float_of rate now naive_seconds answers
              (record { high_water_ts = s.high_water_ts; db = db })).1)
        × (db.ledger ≡ record { positions = w.positions; fills = s.db.ledger.fills })
  unfolding tick_reconcile after_reconcile reconcile
  reconciled_first remote answers s w q =
      ((reconcile float_of now (ok remote) s.db).1, rw (q, reconcile) refl, rw (q, reconcile) refl)

  -- Where a reconciliation returns and the catch-up behind it finds one buy that the table of fills
  -- lacks, and the price in its Discord post can be read, the book has Kalshi's position of the market moved by the count of the fill, also if
  -- Kalshi's position has that fill in it already.
  pub fill_on_top_of_mirror :
      (remote : List KalshiPosition) (f : KalshiFill) (rest : List Answer) (s : Ingestor) (w : Work)
      (r : Decimal) (l : Ledger)
      → reconcile_positions float_of now remote s.db.ledger.positions ≡ ok w
      → any (same_fill now f) s.db.ledger.fills ≡ false
      → f.action ≡ buy
      → apply_new_fill float_of rate now f
          (record { positions = w.positions; fills = s.db.ledger.fills })
        ≡ ok (r, l)
      → post_fill posts f r ≡ ok tt
      → let s' =
          tick_reconcile posts float_of naive_seconds rate now
            (ok remote)
            (ok (f ∷ [], none) ∷ rest)
            s in
        holding f.ticker s'.db.ledger.positions
        ≡ remote_holding f.ticker remote +ℤ signed_count f.side f.count
  fill_on_top_of_mirror remote f rest s w r l q fresh is_buy e t =
      let (db, ticked, book) = reconciled_first remote (ok (f ∷ [], none) ∷ rest) s w q in
      let mirrored : Ledger = record { positions = w.positions; fills = s.db.ledger.fills } in
      let applied : apply_fill float_of rate now f db.ledger ≡ ok (r, l) =
        ap (apply_fill float_of rate now f) book ∙ new_fill f mirrored fresh ∙ e in
      let caught =
        caught_up f rest (record { high_water_ts = s.high_water_ts; db = db }) r l applied t in
      let moved = buy_moves_holding float_of rate now f mirrored r l e is_buy f.ticker in
      ap (λ i. holding f.ticker i.db.ledger.positions) ticked
      ∙ ap (λ d. holding f.ticker d.positions) caught
      ∙ moved
      ∙ (let same : (f.ticker == f.ticker) ≡ true = ground arith in
          rw same (
            ap (λ z. z +ℤ signed_count f.side f.count)
              (reconciled_mirrors_kalshi float_of now remote s.db.ledger.positions w f.ticker q)))
