-- ===== src/Positions/Repeat.antt =====
-- Fills that come twice, in kalshi_agent/positions.py.
use kalshi_agent.Base.{
  ℕ, ◌<◌, ◌≡◌, refl, Bool, true, false, none, some, List, [], ◌∷◌, ◌++◌, any, All, arith, inl, inr,
  Bool-cases,
}
use kalshi_agent.Decimal.{Decimal, of_ℕ}
use kalshi_agent.Result.{ok}
use kalshi_agent.Wire.{KalshiFill}
use kalshi_agent.Storage.{Ledger, Fill}
use kalshi_agent.Positions.{same_fill, fill_row, apply_new_fill, apply_fill}
use kalshi_agent.Positions.Book.{apply_new_fill-Applied}

pub any-append_last :
    (p : Fill → Bool) (xs : List Fill) (x : Fill) → p x ≡ true → any p (xs ++ x ∷ []) ≡ true
any-append_last p [] x h = ground arith
any-append_last p (y ∷ xs) x h = ground (arith, any-append_last p xs x h)

pub same_fill_row :
    (f : KalshiFill) (now now' : ℕ) (ts : ℕ) (price fee : Decimal)
    → f.created_time ≡ some ts
    → same_fill now' f (fill_row f now price fee) ≡ true
unfolding same_fill
same_fill_row f now now' ts price fee e = ground arith

-- Where a fill carries its time, the clock does not matter to the test.
pub any-same_fill :
    (f : KalshiFill) (now now' ts : ℕ) (rows : List Fill)
    → f.created_time ≡ some ts
    → any (same_fill now f) rows ≡ any (same_fill now' f) rows
unfolding same_fill
any-same_fill f now now' ts [] e = refl
any-same_fill f now now' ts (r ∷ rows) e = ground (arith, any-same_fill f now now' ts rows e)

module _ (float_of : Decimal → Decimal) (rate : Decimal) where
  -- A fill that carries its time and has been applied is skipped whenever it comes again: nothing
  -- is realized and the tables stay as they are.
  apply_fill_twice :
      (now now' ts : ℕ) (f : KalshiFill) (db db' : Ledger) (r : Decimal)
      → f.created_time ≡ some ts
      → apply_fill float_of rate now f db ≡ ok (r, db')
      → apply_fill float_of rate now' f db' ≡ ok (of_ℕ 0, db')
  apply_fill_twice now now' ts f db db' r dated e =
      elim (Bool-cases (any (same_fill now f) db.fills)) [
        | inl repeated ↦
            unfold apply_fill in ground (arith, any-same_fill f now now' ts db.fills dated)
        | inr new ↦
            let applied =
              apply_new_fill-Applied float_of rate now f db r db'
                (unfold apply_fill in ground arith) in
            let known : any (same_fill now' f) db'.fills ≡ true = rw applied.fills (
              any-append_last (same_fill now' f) db.fills
                (fill_row f now applied.price_text applied.fee_text)
                (same_fill_row f now now' ts applied.price_text applied.fee_text dated)) in
            unfold apply_fill in ground arith
      ]

  unknown_if_undated :
      (now : ℕ) (f : KalshiFill) (rows : List Fill)
      → f.created_time ≡ none
      → All (λ row. row.created_at < now) rows
      → any (same_fill now f) rows ≡ false
  unfolding same_fill
  unknown_if_undated now f [] e all = refl
  unknown_if_undated now f (row ∷ rows) e (old, all) =
      ground (arith, unknown_if_undated now f rows e all)

  -- A fill that carries no time is applied anew each time it comes, once the clock is past the
  -- times of the rows.
  undated_fill_applied_again :
      (now : ℕ) (f : KalshiFill) (db : Ledger)
      → f.created_time ≡ none
      → All (λ row. row.created_at < now) db.fills
      → apply_fill float_of rate now f db ≡ apply_new_fill float_of rate now f db
  unfolding apply_fill
  undated_fill_applied_again now f db e all =
      ground (arith, unknown_if_undated now f db.fills e all)
