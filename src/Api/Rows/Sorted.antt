-- ===== src/Api/Rows/Sorted.antt =====
-- The order of kalshi_agent/api's queries: what sorting and taking rows come to.
use kalshi_agent.Base.{
  ℕ, zero, suc, ◌≡◌, refl, min, Bool, true, false, List, [], ◌∷◌, ◌++◌, length, count_if, All,
  arith, Bool-cases, inl, inr,
}
use kalshi_agent.Api.Rows.{take, insert, sort}

-- The same rows, each as often.
abbrev pub SameRows : {A : Type 0} → List A → List A → Type 0
SameRows {A} xs ys = (p : A → Bool) → count_if p xs ≡ count_if p ys

module _ {A : Type 0} (before : A → A → Bool) where
  abbrev pub IsSorted : List A → Type 0
  IsSorted [] = Unit
  IsSorted (x ∷ xs) = All (λ y. before x y ≡ true) xs × IsSorted xs

  pub insert-All :
      (P : A → Type 0) (x : A) (xs : List A) → P x → All P xs → All P (insert before x xs)
  unfolding insert
  insert-All P x [] h hs = (h, tt)
  insert-All P x (y ∷ ys) h (q, qs) = elim (Bool-cases (before x y)) [
    | inl b ↦ rw b (h, (q, qs))
    | inr b ↦ rw b (q, insert-All P x ys h qs)
  ]

  module _ (total : (a b : A) → before a b ≡ false → before b a ≡ true)
      (trans : (a b c : A) → before a b ≡ true → before b c ≡ true → before a c ≡ true) where
    weaken :
        (x y : A) (ys : List A)
        → before x y ≡ true
        → All (λ z. before y z ≡ true) ys
        → All (λ z. before x z ≡ true) ys
    weaken x y [] b tt = tt
    weaken x y (z ∷ zs) b (h, hs) = (trans x y z b h, weaken x y zs b hs)

    insert-IsSorted : (x : A) (xs : List A) → IsSorted xs → IsSorted (insert before x xs)
    unfolding insert
    insert-IsSorted x [] h = (tt, tt)
    insert-IsSorted x (y ∷ ys) (h, hs) = elim (Bool-cases (before x y)) [
      | inl b ↦ rw b ((b, weaken x y ys b h), (h, hs))
      | inr b ↦ rw b (insert-All _ x ys (total x y b) h, insert-IsSorted x ys hs)
    ]

    pub sort-IsSorted : (xs : List A) → IsSorted (sort before xs)
    unfolding sort
    sort-IsSorted [] = tt
    sort-IsSorted (x ∷ xs) = insert-IsSorted x (sort before xs) (sort-IsSorted xs)

  insert-SameRows : (x : A) (xs : List A) → SameRows (insert before x xs) (x ∷ xs)
  unfolding insert
  insert-SameRows x [] p = refl
  insert-SameRows x (y ∷ ys) p = ground (arith, insert-SameRows x ys p)

  pub sort-SameRows : (xs : List A) → SameRows (sort before xs) xs
  unfolding sort
  sort-SameRows [] p = refl
  sort-SameRows (x ∷ xs) p = omega (arith, insert-SameRows x (sort before xs) p, sort-SameRows xs p)

  length-insert : (x : A) (xs : List A) → length (insert before x xs) ≡ suc (length xs)
  unfolding insert
  length-insert x [] = refl
  length-insert x (y ∷ ys) = ground (arith, length-insert x ys)

  pub length-sort : (xs : List A) → length (sort before xs) ≡ length xs
  unfolding sort
  length-sort [] = refl
  length-sort (x ∷ xs) = omega (arith, length-insert x (sort before xs), length-sort xs)

abbrev pub left : {A : Type 0} → ℕ → List A → List A
left zero xs = xs
left (suc n) [] = []
left (suc n) (x ∷ xs) = left n xs

pub take-left : {A : Type 0} (n : ℕ) (xs : List A) → take n xs ++ left n xs ≡ xs
take-left zero xs = refl
take-left (suc n) [] = refl
take-left (suc n) (x ∷ xs) = rw (take-left n xs) refl

pub length-take : {A : Type 0} (n : ℕ) (xs : List A) → length (take n xs) ≡ min n (length xs)
length-take zero xs = omega arith
length-take (suc n) [] = omega arith
length-take (suc n) (x ∷ xs) = omega (arith, length-take n xs)

pub take-All : {A : Type 0} (P : A → Type 0) (n : ℕ) (xs : List A) → All P xs → All P (take n xs)
take-All P zero xs h = tt
take-All P (suc n) [] h = tt
take-All P (suc n) (x ∷ xs) (h, hs) = (h, take-All P n xs hs)
