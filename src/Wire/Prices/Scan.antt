-- ===== src/Wire/Prices/Scan.antt =====
-- The digits of a price that kalshi_agent/kalshi/types.py prints, and what the reading of a number
-- makes of them.
use kalshi_agent.Base.{
  ℕ, zero, suc, ◌+◌, ◌-◌, ◌*◌, ◌/◌, ◌%◌, ◌≤◌, ◌<◌, ◌≡◌, ◌∙◌, refl, ap, true, [], ◌∷◌, arith, ltb,
  Bool-cases, inl, inr,
}
use kalshi_agent.Texts.{Text}
use kalshi_agent.Wire.Prices.{is_digit, scan, show_digits}

scan_digit :
    (acc n k : ℕ) (cs : Text) → k < 10 → scan acc n ((48 + k) ∷ cs) ≡ scan (acc * 10 + k) (suc n) cs
unfolding scan
scan_digit acc n k cs h =
    let digit : is_digit (48 + k) ≡ true = ground arith in
    let value : 48 + k - 48 ≡ k = omega arith in rw (digit, value) refl

pub scan_show :
    (f n : ℕ) (tail : Text) → n ≤ f → (k : ℕ) × (scan 0 0 (show_digits f n tail) ≡ scan n k tail)
unfolding show_digits
scan_show zero n tail h =
    (1, scan_digit 0 0 n tail (omega arith) ∙ ap (λ x. scan x 1 tail) (omega arith))
scan_show (suc f) n tail h = elim (Bool-cases (ltb n 10)) [
  | inl small ↦
      (1, rw small (scan_digit 0 0 n tail (ground arith) ∙ ap (λ x. scan x 1 tail) (omega arith)))
  | inr large ↦
      let (k, scanned) = scan_show f (n / 10) ((48 + n % 10) ∷ tail) (ground arith) in
      (
        suc k,
        rw large (
            scanned
            ∙ scan_digit (n / 10) k (n % 10) tail (omega arith)
            ∙ ap (λ x. scan x (suc k) tail) (omega arith)),
      )
]

-- The four digits behind the point.
abbrev pub decimals : ℕ → Text
decimals n = (48 + n / 1000 % 10) ∷ (48 + n / 100 % 10) ∷ (48 + n / 10 % 10) ∷ (48 + n % 10) ∷ []

four_digits :
    (n : ℕ)
    → (((n / 10_000 * 10 + n / 1000 % 10) * 10 + n / 100 % 10) * 10 + n / 10 % 10) * 10 + n % 10 ≡ n
four_digits n = omega arith

pub scan-decimals : (n k : ℕ) → scan (n / 10_000) k (decimals n) ≡ (n, suc (suc (suc (suc k))), [])
scan-decimals n k =
    scan_digit (n / 10_000) k (n / 1000 % 10) _ (omega arith)
    ∙ scan_digit _ (suc k) (n / 100 % 10) _ (omega arith)
    ∙ scan_digit _ (suc (suc k)) (n / 10 % 10) _ (omega arith)
    ∙ scan_digit _ (suc (suc (suc k))) (n % 10) _ (omega arith)
    ∙ (unfold scan in ap (λ x. (x, suc (suc (suc (suc k))), [])) (four_digits n))

pub scan_point : (w k : ℕ) (cs : Text) → scan w k (46 ∷ cs) ≡ (w, k, 46 ∷ cs)
unfolding scan
scan_point w k cs = refl
