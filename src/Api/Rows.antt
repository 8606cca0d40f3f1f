-- ===== src/Api/Rows.antt =====
-- What the queries of kalshi_agent/api/routes/observer.py and dashboard.py do with rows: SQLite's
-- order and limit. Of rows that compare alike the one that was inserted first stands first.
pub mod Sorted
use kalshi_agent.Base.{
  ℕ, zero, suc, Bool, true, false, Option, none, some, List, [], ◌∷◌, ltb, if◌then◌else◌,
}
use kalshi_agent.Base.Int.{ℤ, pos, negsuc}

module _ {A : Type 0} where
  abbrev pub take : ℕ → List A → List A
  take zero xs = []
  take (suc n) [] = []
  take (suc n) (x ∷ xs) = x ∷ take n xs

  -- A row is put before the first one that has to stand behind it.
  unfoldable pub insert : (A → A → Bool) → A → List A → List A
  insert before x [] = x ∷ []
  insert before x (y ∷ ys) =
      let rest = insert before x ys in if before x y then x ∷ y ∷ ys else y ∷ rest

  unfoldable pub sort : (A → A → Bool) → List A → List A
  sort before [] = []
  sort before (x ∷ xs) = insert before x (sort before xs)

  -- `limit(n)` in SQLite, where a negative number is no limit.
  abbrev pub limit : ℤ → List A → List A
  limit (pos n) xs = take n xs
  limit (negsuc _) xs = xs

  -- `Query(..., le=most)`: a value above it is answered with 422.
  abbrev pub at_most : ℕ → ℤ → List A → Option (List A)
  at_most most (negsuc n) xs = some xs
  at_most most (pos n) xs = if ltb most n then none else some xs
