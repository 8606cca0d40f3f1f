-- ===== src/Decimal.antt =====
-- The part of Python's `decimal` that the program uses, at the default context: 28 significant
-- digits, ROUND_HALF_EVEN. A value is coef / 10 ^ places. Signed zeros, NaN and infinities, and
-- the limits on exponents are left out.
mod Tests
pub mod Exact
pub mod Nonzero
use kalshi_agent.Base.{
  ℕ, zero, suc, ◌+◌, ◌-◌, ◌*◌, ◌/◌, ◌%◌, ◌^◌, max, Bool, true, false, not, Option, none, some, List,
  [], ◌∷◌, ltb, leb, ◌==◌, if◌then◌else◌,
}
use kalshi_agent.Result.{Result, ok, err, invalid_operation, division_by_zero}
use kalshi_agent.Base.Int.{
  ℤ, pos, negsuc, pos_part, neg_part, magnitude, neg_ℕ, negate, ◌+ℤ◌, ◌-ℤ◌, ◌*ℤ◌, leb_ℤ, ltb_ℤ,
  eqb_ℤ,
}

pub record Decimal : Type 0 where
  pub coef : ℤ
  pub places : ℕ

-- n / 10 ^ k
abbrev pub dec : ℕ → ℕ → Decimal
dec n k = record { coef = pos n; places = k }

abbrev pub of_ℕ : ℕ → Decimal
of_ℕ n = dec n 0

-- The number of decimal digits of `c`, from fuel at least `c`; 0 has none.
unfoldable pub digit_count : ℕ → ℕ → ℕ
digit_count zero c = 0
digit_count (suc f) c = let rest = suc (digit_count f (c / 10)) in if c == 0 then 0 else rest

unfoldable pub half_even : ℕ → ℕ → ℕ
half_even c d =
    let q = c / d in
    let r = c % d in if ltb (2 * r) d then q else if ltb d (2 * r) then q + 1 else q + q % 2

-- How many digits of `c` are beyond the precision.
unfoldable pub excess : ℕ → ℕ
unfolding digit_count
excess c = if ltb c (10 ^ 28) then 0 else digit_count c c - 28

-- `_fix`: a magnitude at a number of places, rounded to 28 digits.
unfoldable pub fix_magnitude : ℕ → ℕ → ℕ × ℕ
fix_magnitude c k =
    let e = excess c in
    if e == 0
    then (c, k)
    else let q = half_even c (10 ^ e) in if leb e k then (q, k - e) else (q * 10 ^ (e - k), 0)

unfoldable pub fix : ℤ → ℕ → Decimal
unfolding fix_magnitude excess half_even
fix (pos n) k = let (q, k') = fix_magnitude n k in dec q k'
fix (negsuc n) k = let (q, k') = fix_magnitude (suc n) k in record { coef = neg_ℕ q; places = k' }

-- The coefficient of `a` at `k` places, which are at least its own.
abbrev pub at_places : Decimal → ℕ → ℤ
unfolding ◌*ℤ◌
at_places a k = a.coef *ℤ pos (10 ^ (k - a.places))

infixl 65 ◌+D◌ ◌-D◌
infixl 70 ◌*D◌
unfoldable pub ◌+D◌ : Decimal → Decimal → Decimal
unfolding fix ◌+ℤ◌ ◌*ℤ◌
a +D b = let k = max a.places b.places in fix (at_places a k +ℤ at_places b k) k

unfoldable pub neg : Decimal → Decimal
unfolding fix
neg a = fix (negate a.coef) a.places

unfoldable pub ◌-D◌ : Decimal → Decimal → Decimal
unfolding fix ◌-ℤ◌ ◌*ℤ◌
a -D b = let k = max a.places b.places in fix (at_places a k -ℤ at_places b k) k

unfoldable pub ◌*D◌ : Decimal → Decimal → Decimal
unfolding fix ◌*ℤ◌
a *D b = fix (a.coef *ℤ b.coef) (a.places + b.places)

-- The quotient of two magnitudes at 29 significant digits or more, its last digit made sticky
-- where a remainder is left; and the places that it stands at, as a difference.
unfoldable pub long_division : ℕ → ℕ → ℕ
unfolding digit_count
long_division x y =
    let lx = digit_count x x in
    let ly = digit_count y y in
    let num = x * 10 ^ (ly + 29 - lx) in
    let den = y * 10 ^ (lx - (ly + 29)) in
    let q = num / den in if num % den == 0 then q else if q % 5 == 0 then q + 1 else q

abbrev quotient_sign : ℤ → ℤ → ℕ → ℤ
quotient_sign (pos _) (pos _) q = pos q
quotient_sign (pos _) (negsuc _) q = neg_ℕ q
quotient_sign (negsuc _) (pos _) q = neg_ℕ q
quotient_sign (negsuc _) (negsuc _) q = pos q

-- Zeros at the end of an exact quotient are dropped, down to the ideal exponent.
unfoldable pub strip : ℕ → ℕ → ℕ → ℕ × ℕ
strip zero q k = (q, k)
strip (suc f) q k = let rest = strip f (q / 10) (k - 1) in if q % 10 == 0 then rest else (q, k)

-- The quotient by a divisor that is not 0.
unfoldable pub quotient : Decimal → Decimal → Decimal
unfolding long_division fix digit_count strip ◌*ℤ◌
quotient a b =
    let x = magnitude a.coef in
    let y = magnitude b.coef in
    let lx = digit_count x x in
    let ly = digit_count y y in
    let up = a.places + (ly + 29 - lx) in
    let down = b.places + (lx - (ly + 29)) in
    let q = long_division x y * 10 ^ (down - up) in
    let k = up - down in
    let exact = x * 10 ^ (ly + 29 - lx) % (y * 10 ^ (lx - (ly + 29))) == 0 in
    let (q', k') = if exact then strip (k - (a.places - b.places)) q k else (q, k) in
    if x == 0 then of_ℕ 0 else fix (quotient_sign a.coef b.coef q') k'

-- `__truediv__`
unfoldable pub div : Decimal → Decimal → Result Decimal
unfolding quotient
div a b = if magnitude b.coef == 0 then err division_by_zero else ok (quotient a b)

-- Comparisons are exact.
unfoldable pub leb_D : Decimal → Decimal → Bool
unfolding ◌*ℤ◌
leb_D a b = leb_ℤ (a.coef *ℤ pos (10 ^ b.places)) (b.coef *ℤ pos (10 ^ a.places))

unfoldable pub ltb_D : Decimal → Decimal → Bool
unfolding ◌*ℤ◌
ltb_D a b = ltb_ℤ (a.coef *ℤ pos (10 ^ b.places)) (b.coef *ℤ pos (10 ^ a.places))

unfoldable pub eqb_D : Decimal → Decimal → Bool
unfolding ◌*ℤ◌
eqb_D a b = eqb_ℤ (a.coef *ℤ pos (10 ^ b.places)) (b.coef *ℤ pos (10 ^ a.places))

-- The built-in `min` of two: the second only if it is less than the first.
unfoldable pub min_D : Decimal → Decimal → Decimal
unfolding ltb_D
min_D a b = if ltb_D b a then b else a

-- `int(a)`, towards zero.
unfoldable pub truncate : Decimal → ℤ
truncate a = elim a.coef [
  | pos n ↦ pos (n / 10 ^ a.places)
  | negsuc n ↦ neg_ℕ (suc n / 10 ^ a.places)
]

-- `math.ceil(a)`
unfoldable pub ceil : Decimal → ℤ
ceil a = elim a.coef [
  | pos n ↦ pos ((n + (10 ^ a.places - 1)) / 10 ^ a.places)
  | negsuc n ↦ neg_ℕ (suc n / 10 ^ a.places)
]

-- An integer as a decimal.
abbrev pub of_ℤ : ℤ → Decimal
of_ℤ i = record { coef = i; places = 0 }

-- A magnitude at `k` places, rounded to 4.
unfoldable pub to_4_places : ℕ → ℕ → ℕ
unfolding half_even
to_4_places c k = if leb k 4 then c * 10 ^ (4 - k) else half_even c (10 ^ (k - 4))

-- `quantize(Decimal('0.0001'))`, which refuses a result of more than 28 digits.
unfoldable pub quantize : Decimal → Result Decimal
unfolding to_4_places
quantize a =
    let q = to_4_places (magnitude a.coef) a.places in
    if ltb q (10 ^ 28)
    then ok (record { coef = elim a.coef [ pos _ ↦ pos q | negsuc _ ↦ neg_ℕ q ]; places = 4 })
    else err invalid_operation

-- A sum of decimals from the left, as `sum(xs, Decimal("0"))` adds.
unfoldable pub sum_D : Decimal → List Decimal → Decimal
unfolding ◌+D◌
sum_D acc [] = acc
sum_D acc (d ∷ ds) = sum_D (acc +D d) ds
