-- ===== src/Api/Dashboard/Today.antt =====
-- What kalshi_agent/api/routes/dashboard.py shows as the gain of today.
use kalshi_agent.Base.{
  ℕ, ◌<◌, ◌≡◌, ◌∙◌, refl, ap, Bool, false, some, List, [], ◌∷◌, map, All, arith, leb, ◌==◌,
}
use kalshi_agent.Decimal.{Decimal}
use kalshi_agent.Storage.{Db, PnlDaily}
use kalshi_agent.Daily.{daily_realized_pnl, put_daily, snapshot_daily_pnl}
use kalshi_agent.Api.Rows.{take, insert, sort}
use kalshi_agent.Api.Rows.Sorted.{insert-All, take-All}
use kalshi_agent.Api.Dashboard.{later_day, onto, reversed, daily_rows, row_of, today_pnl, page}

abbrev pub IsPast : ℕ → PnlDaily → Type 0
IsPast today r = r.day < today

sort-All : (P : PnlDaily → Type 0) (rows : List PnlDaily) → All P rows → All P (sort later_day rows)
unfolding sort
sort-All P [] h = tt
sort-All P (r ∷ rows) (h, hs) =
    insert-All later_day P r (sort later_day rows) h (sort-All P rows hs)

-- A row of a new day comes first.
sort-put_daily :
    (row : PnlDaily) (rows : List PnlDaily)
    → All (IsPast row.day) rows
    → sort later_day (put_daily row rows) ≡ row ∷ sort later_day rows
unfolding sort insert put_daily
sort-put_daily row [] tt = refl
sort-put_daily row (r ∷ rows) (h, hs) =
    let other : (r.day == row.day) ≡ false = ground arith in
    let behind : leb row.day r.day ≡ false = ground arith in
    rw (other, sort-put_daily row rows hs, behind) refl

row_of-onto :
    (today : ℕ) (xs ys : List PnlDaily)
    → All (IsPast today) xs
    → row_of today (onto xs ys) ≡ row_of today ys
row_of-onto today [] ys h = refl
row_of-onto today (x ∷ xs) ys (h, hs) =
    let other : (x.day == today) ≡ false = ground arith in
    row_of-onto today xs (x ∷ ys) hs ∙ rw other refl

row_of-daily_rows :
    (row : PnlDaily) (rows : List PnlDaily)
    → All (IsPast row.day) rows
    → row_of row.day (reversed (take 30 (sort later_day (put_daily row rows)))) ≡ some row
row_of-daily_rows row rows h =
    let older = take 29 (sort later_day rows) in
    rw (sort-put_daily row rows h) (
      row_of-onto row.day older (row ∷ [])
        (take-All (IsPast row.day) 29 (sort later_day rows) (sort-All (IsPast row.day) rows h))
      ∙ ground arith)

-- From the snapshot of a day on, whose rows before are all of earlier days, the page shows as the
-- gain of that day the cumulative gain that the book had at the snapshot, whatever the book has
-- become, as long as no other snapshot is taken.
pub today_shows_snapshot :
    (float_of : Decimal → Decimal) (float_sum : List Decimal → Decimal)
    (float_times : Decimal → ℕ → Decimal) (midnights : ℕ → ℕ × ℕ) (day now : ℕ) (engaged : Bool)
    (db later : Db)
    → All (IsPast day) db.pnl_daily
    → later.pnl_daily ≡ (snapshot_daily_pnl float_of float_sum midnights day now db).pnl_daily
    → (page float_sum float_times day engaged later).today_pnl
      ≡ float_sum (map (λ p. p.realized_pnl_dollars) db.ledger.positions)
unfolding page today_pnl daily_rows snapshot_daily_pnl
today_shows_snapshot float_of float_sum float_times midnights day now engaged db later past same =
    let figures = daily_realized_pnl (midnights day) db.ledger.fills in
    let row : PnlDaily = record {
      day = day;
      realized_pnl = float_sum (map (λ p. p.realized_pnl_dollars) db.ledger.positions);
      fees = float_of figures.1.0;
      trade_count = figures.1.1;
      updated_at = now;
    } in
    let total = float_sum (map (λ p. p.realized_pnl_dollars) later.ledger.positions) in
    ap (λ rows. today_pnl total day (reversed (take 30 (sort later_day rows)))) same
    ∙ (rw (row_of-daily_rows row db.pnl_daily past) refl)
