-- ===== src/Decimal/Tests.antt =====
-- Runs of the decimal operations, against Python's results.
use kalshi_agent.Base.{◌+◌, ◌^◌, ◌≡◌, refl}
use kalshi_agent.Base.Int.{pos, negsuc}
use kalshi_agent.Result.{ok, err, division_by_zero}
use kalshi_agent.Decimal.{dec, of_ℕ, of_ℤ, ◌+D◌, ◌-D◌, div, ceil, quantize}

add_aligns : dec 65 2 +D dec 1 4 ≡ dec 6501 4
unfolding ◌+D◌
add_aligns = refl

-- 1 / 3
third : div (of_ℕ 1) (of_ℕ 3) ≡ ok (dec 3333333333333333333333333333 28)
unfolding div
third = refl

-- 2 / 3 rounds up
two_thirds : div (of_ℕ 2) (of_ℕ 3) ≡ ok (dec 6666666666666666666666666667 28)
unfolding div
two_thirds = refl

by_zero : div (of_ℕ 2) (of_ℤ (pos 0)) ≡ err division_by_zero
unfolding div
by_zero = refl

below_zero : dec 3 1 -D dec 5 1 ≡ record { coef = negsuc 1; places = 1 }
unfolding ◌-D◌
below_zero = refl

-- 29 digits are rounded, half to even.
rounds : dec (10 ^ 28 + 5) 3 +D of_ℕ 0 ≡ dec (10 ^ 27) 2
unfolding ◌+D◌
rounds = refl

ceil_up : ceil (dec 17500 4) ≡ pos 2
unfolding ceil
ceil_up = refl

quantize_half : quantize (dec 65_0005_0 6) ≡ ok (dec 65000 4)
unfolding quantize
quantize_half = refl

-- 2 / 100 is 0.02, with no zeros behind.
two_cents : div (of_ℕ 2) (of_ℕ 100) ≡ ok (dec 2 2)
unfolding div
two_cents = refl

-- 0.0123 / 0.5
by_half : div (dec 123 4) (dec 5 1) ≡ ok (dec 246 4)
unfolding div
by_half = refl
