-- ===== src/Decimal/Nonzero.antt =====
-- Rounding to 28 digits makes no number 0, so the guards on prices keep the divisions defined.
use Prim.Native.Nat.{max}
use native.Mathlib.Nat.{pow-suc}
use native.Mathlib.Decide.{ℕ_discrete as dec_eq}
use kalshi_agent.Base.{
  ℕ, zero, suc, ◌-◌, ◌*◌, ◌/◌, ◌^◌, ◌<◌, ◌≤◌, ◌≡◌, ◌≢◌, refl, false, arith, leb,
}
use kalshi_agent.Base.Int.{ℤ, pos, negsuc, magnitude, neg_ℕ, ◌-ℤ◌, ◌*ℤ◌, -ℤ_parts}
use kalshi_agent.Result.{ok}
use kalshi_agent.Decimal.Exact.{magnitude_parts, *ℤ_pos_parts}
use kalshi_agent.Decimal.{
  Decimal, of_ℕ, digit_count, half_even, excess, fix_magnitude, fix, ◌-D◌, leb_D, div, quotient,
}

pow_pos : (e : ℕ) → 0 < 10 ^ e
pow_pos zero = omega arith
pow_pos (suc e) = omega (arith, pow-suc 10 e, pow_pos e)

pow-le-digits : (f c j : ℕ) → j < digit_count f c → 10 ^ j ≤ c
unfolding digit_count
pow-le-digits zero c j h = absurd (omega arith)
pow-le-digits (suc f) c zero h = ground arith
pow-le-digits (suc f) c (suc j) h =
    let deeper : j < digit_count f (c / 10) = ground arith in
    omega (arith, pow-suc 10 j, pow-le-digits f (c / 10) j deeper)

mul_pos : (a b : ℕ) → 0 < a → 0 < b → 0 < a * b
mul_pos a b h k = grind arith

div_pos : (c d : ℕ) → 0 < d → d ≤ c → 0 < c / d
div_pos c d h k = grind arith

half_even_pos : (c d : ℕ) → 0 < d → d ≤ c → 0 < half_even c d
unfolding half_even
half_even_pos c d h k = ground (arith, div_pos c d h k)

excess-lt-digits : (c : ℕ) → excess c ≢ 0 → excess c < digit_count c c
unfolding excess
excess-lt-digits c h = ground arith

excess_pow : (c : ℕ) → excess c ≢ 0 → 10 ^ excess c ≤ c
excess_pow c h = pow-le-digits c c (excess c) (excess-lt-digits c h)

pub fix_magnitude_pos : (c k : ℕ) → 0 < c → 0 < (fix_magnitude c k).0
unfolding fix_magnitude
fix_magnitude_pos c k h = elim (dec_eq (excess c) 0) [
  | yes z ↦ ground arith
  | no z ↦
      let d = 10 ^ excess c in
      let q = half_even_pos c d (pow_pos (excess c)) (excess_pow c z) in
      ground (arith, mul_pos (half_even c d) (10 ^ (excess c - k)) q (pow_pos (excess c - k)))
]

fix_coef :
    (n k : ℕ)
    → (magnitude (fix (pos n) k).coef ≡ (fix_magnitude n k).0)
      × (magnitude (fix (negsuc n) k).coef ≡ magnitude (neg_ℕ (fix_magnitude (suc n) k).0))
unfolding fix
fix_coef n k = (refl, refl)

magnitude-neg_ℕ : (n : ℕ) → magnitude (neg_ℕ n) ≡ n
magnitude-neg_ℕ zero = refl
magnitude-neg_ℕ (suc n) = refl

-- A nonzero number stays nonzero.
pub fix_nonzero : (z : ℤ) (k : ℕ) → magnitude z ≢ 0 → magnitude (fix z k).coef ≢ 0
fix_nonzero (pos n) k h = omega (arith, (fix_coef n k).0, fix_magnitude_pos n k (omega arith))
fix_nonzero (negsuc n) k h = omega (
  arith,
  (fix_coef n k).1,
  fix_magnitude_pos (suc n) k (omega arith),
  magnitude-neg_ℕ (fix_magnitude (suc n) k).0,
)

lt_of_leb : (a b : ℕ) → leb a b ≡ false → b < a
lt_of_leb a b h = ground arith

-- A number that is not at most 0 has a positive coefficient.
pub positive_coef : (a : Decimal) → leb_D a (of_ℕ 0) ≡ false → magnitude a.coef ≢ 0
unfolding leb_D
positive_coef a h = omega (arith, magnitude_parts a.coef, *ℤ_pos_parts a.coef 1, lt_of_leb _ _ h)

-- 1 - a is not 0 where a is below 1.
pub complement_nonzero : (a : Decimal) → leb_D (of_ℕ 1) a ≡ false → magnitude (of_ℕ 1 -D a).coef ≢ 0
unfolding leb_D ◌-D◌
complement_nonzero a h =
    let k = max 0 a.places in
    let one = pos 1 *ℤ pos (10 ^ (k - 0)) in
    let own = a.coef *ℤ pos (10 ^ (k - a.places)) in
    let up : k - 0 ≡ a.places = omega arith in
    let same : k - a.places ≡ 0 = omega arith in
    let apart : magnitude (one -ℤ own) ≢ 0 =
      rw (up, same)
        (omega (
          arith,
          magnitude_parts (pos 1 *ℤ pos (10 ^ a.places) -ℤ a.coef *ℤ pos (10 ^ 0)),
          -ℤ_parts (pos 1 *ℤ pos (10 ^ a.places)) (a.coef *ℤ pos (10 ^ 0)),
          *ℤ_pos_parts a.coef 1,
          lt_of_leb _ _ h,
        )) in
    fix_nonzero (one -ℤ own) k apart

pub div_defined : (a b : Decimal) → magnitude b.coef ≢ 0 → div a b ≡ ok (quotient a b)
unfolding div
div_defined a b h = ground arith
