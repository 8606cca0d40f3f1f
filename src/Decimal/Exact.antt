-- ===== src/Decimal/Exact.antt =====
-- Where a result has at most 28 digits the operations are exact.
use kalshi_agent.Base.{ap, ℕ, zero, suc, ◌+◌, ◌*◌, ◌^◌, ◌<◌, ◌≤◌, ◌≡◌, arith}
use kalshi_agent.Base.Int.{
  ℤ, pos, negsuc, pos_part, neg_part, eq_of_parts, magnitude, neg_ℕ, ◌+ℤ◌, ◌-ℤ◌, ◌*ℤ◌, int_laws,
}
use kalshi_agent.Decimal.{Decimal, dec, of_ℕ, excess, fix_magnitude, fix, ◌+D◌, ◌-D◌, ◌*D◌}

excess_zero : (c : ℕ) → c < 10 ^ 28 → excess c ≡ 0
unfolding excess
excess_zero c h = ground arith

pub fix_magnitude_exact : (c k : ℕ) → c < 10 ^ 28 → fix_magnitude c k ≡ (c, k)
unfolding fix_magnitude
fix_magnitude_exact c k h = ground (arith, excess_zero c h)

pub fix_exact : (z : ℤ) (k : ℕ) → magnitude z < 10 ^ 28 → fix z k ≡ record { coef = z; places = k }
unfolding fix
fix_exact (pos n) k h = rw (fix_magnitude_exact n k h)
fix_exact (negsuc n) k h = rw (fix_magnitude_exact (suc n) k h)

-- z / 10 ^ 4
abbrev pub at4 : ℤ → Decimal
at4 z = record { coef = z; places = 4 }

neg_ℕ_parts : (k : ℕ) → (pos_part (neg_ℕ k) ≡ 0) × (neg_part (neg_ℕ k) ≡ k)
neg_ℕ_parts zero = omega arith
neg_ℕ_parts (suc k) = omega arith

pub *ℤ_pos_parts :
    (z : ℤ) (n : ℕ)
    → (pos_part (z *ℤ pos n) ≡ pos_part z * n) × (neg_part (z *ℤ pos n) ≡ neg_part z * n)
unfolding ◌*ℤ◌
*ℤ_pos_parts (pos m) n = omega arith
*ℤ_pos_parts (negsuc m) n = omega (arith, neg_ℕ_parts (suc m * n))

pub magnitude_parts : (z : ℤ) → magnitude z ≡ pos_part z + neg_part z
magnitude_parts (pos n) = omega arith
magnitude_parts (negsuc n) = omega arith

pub *ℤ_one : (z : ℤ) → z *ℤ pos 1 ≡ z
*ℤ_one z = eq_of_parts _ _ (omega (arith, *ℤ_pos_parts z 1))

pub add4 : (a b : ℤ) → magnitude (a +ℤ b) < 10 ^ 28 → at4 a +D at4 b ≡ at4 (a +ℤ b)
unfolding ◌+D◌
add4 a b h = rw (*ℤ_one a, *ℤ_one b) (fix_exact (a +ℤ b) 4 h)

pub zero_add4 : (a : ℤ) → magnitude a < 10 ^ 28 → of_ℕ 0 +D at4 a ≡ at4 a
unfolding ◌+D◌ ◌*ℤ◌
zero_add4 a h =
    let e : pos 0 +ℤ a ≡ a = eq_of_parts (pos 0 +ℤ a) a (omega (int_laws)) in
    rw (*ℤ_one a, e) (fix_exact a 4 h)

pub sub4 : (a b : ℤ) → magnitude (a -ℤ b) < 10 ^ 28 → at4 a -D at4 b ≡ at4 (a -ℤ b)
unfolding ◌-D◌
sub4 a b h = rw (*ℤ_one a, *ℤ_one b) (fix_exact (a -ℤ b) 4 h)

-- z / 10 ^ 8
abbrev pub at8 : ℤ → Decimal
at8 z = record { coef = z; places = 8 }

pub sub8 : (a b : ℤ) → magnitude (a -ℤ b) < 10 ^ 28 → at8 a -D at8 b ≡ at8 (a -ℤ b)
unfolding ◌-D◌
sub8 a b h = rw (*ℤ_one a, *ℤ_one b) (fix_exact (a -ℤ b) 8 h)

-- A difference of eight decimals and two.
pub sub8_2 :
    (a : ℤ) (b : ℕ)
    → magnitude (a -ℤ pos (b * 10 ^ 6)) < 10 ^ 28
    → at8 a -D dec b 2 ≡ at8 (a -ℤ pos (b * 10 ^ 6))
unfolding ◌-D◌ ◌*ℤ◌
sub8_2 a b h = rw (*ℤ_one a) (fix_exact (a -ℤ pos (b * 10 ^ 6)) 8 h)

pub mul8 : (a : ℤ) (n : ℕ) → magnitude (a *ℤ pos n) < 10 ^ 28 → at8 a *D of_ℕ n ≡ at8 (a *ℤ pos n)
unfolding ◌*D◌
mul8 a n h = fix_exact (a *ℤ pos n) 8 h

-- `Decimal("1.0")` in place of `Decimal("1")`
pub unit_sub4 :
    (a : ℤ) → magnitude (pos 10000 -ℤ a) < 10 ^ 28 → dec 10 1 -D at4 a ≡ at4 (pos 10000 -ℤ a)
unfolding ◌-D◌ ◌*ℤ◌
unit_sub4 a h = rw *ℤ_one (fix_exact (pos 10000 -ℤ a) 4 h)

pub one_sub4 :
    (a : ℤ) → magnitude (pos 10000 -ℤ a) < 10 ^ 28 → of_ℕ 1 -D at4 a ≡ at4 (pos 10000 -ℤ a)
unfolding ◌-D◌ ◌*ℤ◌
one_sub4 a h = rw *ℤ_one (fix_exact (pos 10000 -ℤ a) 4 h)

pub mul4 : (a : ℤ) (n : ℕ) → magnitude (a *ℤ pos n) < 10 ^ 28 → at4 a *D of_ℕ n ≡ at4 (a *ℤ pos n)
unfolding ◌*D◌
mul4 a n h = fix_exact (a *ℤ pos n) 4 h

pub mul_dec : (a b j k : ℕ) → a * b < 10 ^ 28 → dec a j *D dec b k ≡ dec (a * b) (j + k)
unfolding ◌*D◌ ◌*ℤ◌
mul_dec a b j k h = fix_exact (pos (a * b)) (j + k) h

pub magnitude_sub : (a b : ℕ) → magnitude (pos a -ℤ pos b) ≤ a + b
unfolding ◌-ℤ◌
magnitude_sub a b = ground arith

pub magnitude_sub_pos : (z : ℤ) (b : ℕ) → magnitude (z -ℤ pos b) ≤ magnitude z + b
unfolding ◌-ℤ◌
magnitude_sub_pos (pos a) b = ground arith
magnitude_sub_pos (negsuc a) b = ground arith

pub magnitude_mul : (z : ℤ) (n : ℕ) → magnitude (z *ℤ pos n) ≡ magnitude z * n
magnitude_mul z n = omega (
  arith,
  ap (λ (t : ℕ). t * n) (magnitude_parts z),
  magnitude_parts (z *ℤ pos n),
  *ℤ_pos_parts z n,
)
