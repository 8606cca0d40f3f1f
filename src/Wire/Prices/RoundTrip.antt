-- ===== src/Wire/Prices/RoundTrip.antt =====
-- A price that kalshi_agent/kalshi/types.py prints is read back as the same decimal.
use kalshi_agent.Base.{
  ℕ, zero, suc, ◌+◌, ◌-◌, ◌/◌, ◌%◌, ◌≤◌, ◌<◌, ◌≡◌, ◌∙◌, refl, ap, false, none, some, [], ◌∷◌, All,
  arith, ltb, ◌==◌, Bool-cases, inl, inr,
}
use kalshi_agent.Base.Int.{ℤ, pos, negsuc, neg_ℕ}
use kalshi_agent.Decimal.{Decimal, quantize}
use kalshi_agent.Result.{ok}
use kalshi_agent.Texts.{Text, is_space, lstrip, rstrip, strip}
use kalshi_agent.Wire.{price_str_to_decimal, price_decimal_to_str}
use kalshi_agent.Wire.Prices.{
  scan, ended, fraction, unsigned, without_underscores, signed, parse_decimal, price_text,
  show_digits, show_4_places, show_decimal,
}
use kalshi_agent.Wire.Prices.Scan.{decimals, scan_show, scan-decimals, scan_point}

ended_lem :
    (sign : ℕ → ℤ) (n digits places : ℕ)
    → (digits == 0) ≡ false
    → places ≡ 4
    → ended sign n digits [] places ≡ some (record { coef = sign n; places = 4 })
ended_lem sign n digits places h e = rw (h, e) refl

fraction_lem :
    (sign : ℕ → ℤ) (n k : ℕ)
    → fraction sign (n / 10_000) k (46 ∷ decimals n) ≡ some (record { coef = sign n; places = 4 })
unfolding fraction
fraction_lem sign n k =
    ap (λ x. ended sign x.0 x.1 x.2 (x.1 - k)) (scan-decimals n k)
    ∙ ended_lem sign n (suc (suc (suc (suc k)))) (suc (suc (suc (suc k))) - k) (ground arith)
        (omega arith)

unsigned_lem :
    (sign : ℕ → ℤ) (n : ℕ)
    → unsigned sign (show_4_places n) ≡ some (record { coef = sign n; places = 4 })
unfolding unsigned show_4_places
unsigned_lem sign n =
    let (k, scanned) = scan_show (n / 10_000) (n / 10_000) (46 ∷ decimals n) (omega arith) in
    ap (λ x. fraction sign x.0 x.1 x.2) (scanned ∙ scan_point (n / 10_000) k (decimals n))
    ∙ fraction_lem sign n k

-- A character that stays: neither a space nor an underscore; and one of a number, which is no sign.
abbrev IsSolid : ℕ → Type 0
IsSolid c = (is_space c ≡ false) × ((c == 95) ≡ false)

abbrev IsPlain : ℕ → Type 0
IsPlain c = IsSolid c × ((c == 45) ≡ false) × ((c == 43) ≡ false)

digit-IsPlain : (k : ℕ) → k < 10 → IsPlain (48 + k)
unfolding is_space
digit-IsPlain k h = ground arith

show_digits-IsPlain :
    (f n : ℕ) (tail : Text) → n ≤ f → All IsPlain tail → All IsPlain (show_digits f n tail)
unfolding show_digits
show_digits-IsPlain zero n tail h t = (digit-IsPlain n (omega arith), t)
show_digits-IsPlain (suc f) n tail h t = elim (Bool-cases (ltb n 10)) [
  | inl small ↦ rw small (digit-IsPlain n (ground arith), t)
  | inr large ↦ rw large (
      show_digits-IsPlain f (n / 10) ((48 + n % 10) ∷ tail) (ground arith)
        (digit-IsPlain (n % 10) (omega arith), t))
]

point-IsPlain : IsPlain 46
unfolding is_space
point-IsPlain = ((refl, refl), refl, refl)

show_4_places-IsPlain : (n : ℕ) → All IsPlain (show_4_places n)
unfolding show_4_places
show_4_places-IsPlain n =
    show_digits-IsPlain (n / 10_000) (n / 10_000) (46 ∷ decimals n) (omega arith) (
      point-IsPlain,
      (
        digit-IsPlain (n / 1000 % 10) (omega arith),
        (
          digit-IsPlain (n / 100 % 10) (omega arith),
          (digit-IsPlain (n / 10 % 10) (omega arith), (digit-IsPlain (n % 10) (omega arith), tt)),
        ),
      ),
    )

plain-IsSolid : (cs : Text) → All IsPlain cs → All IsSolid cs
plain-IsSolid [] tt = tt
plain-IsSolid (c ∷ cs) (p, ps) = (p.0, plain-IsSolid cs ps)

lstrip_solid : (cs : Text) → All IsSolid cs → lstrip cs ≡ cs
unfolding lstrip
lstrip_solid [] tt = refl
lstrip_solid (c ∷ cs) (p, ps) = rw (p.0) refl

rstrip_solid : (cs : Text) → All IsSolid cs → rstrip cs ≡ cs
unfolding rstrip
rstrip_solid [] tt = refl
rstrip_solid (c ∷ []) (p, ps) = rw (p.0) refl
rstrip_solid (c ∷ d ∷ cs) (p, ps) = rw (rstrip_solid (d ∷ cs) ps) refl

underscores_solid : (cs : Text) → All IsSolid cs → without_underscores cs ≡ cs
underscores_solid [] tt = refl
underscores_solid (c ∷ cs) (p, ps) = rw (p.1, underscores_solid cs ps) refl

parse_solid : (cs : Text) → All IsSolid cs → parse_decimal cs ≡ signed cs
unfolding parse_decimal strip
parse_solid cs h = rw (lstrip_solid cs h, rstrip_solid cs h, underscores_solid cs h) refl

signed_plain : (cs : Text) → All IsPlain cs → signed cs ≡ unsigned pos cs
unfolding unsigned scan
signed_plain [] tt = refl
signed_plain (c ∷ cs) (p, ps) = rw (p.1, p.2) refl

minus-IsSolid : IsSolid 45
unfolding is_space
minus-IsSolid = (refl, refl)

minus_lem : (cs : Text) → signed (45 ∷ cs) ≡ unsigned neg_ℕ cs
unfolding unsigned
minus_lem cs = refl

-- The text of a decimal of four places is read as that decimal.
parse-show_decimal :
    (c : ℤ)
    → let d : Decimal = record { coef = c; places = 4 } in parse_decimal (show_decimal d) ≡ some d
unfolding show_decimal
parse-show_decimal (pos n) =
    parse_solid (show_4_places n) (plain-IsSolid _ (show_4_places-IsPlain n))
    ∙ signed_plain (show_4_places n) (show_4_places-IsPlain n)
    ∙ unsigned_lem pos n
parse-show_decimal (negsuc n) =
    parse_solid (45 ∷ show_4_places (suc n))
      (minus-IsSolid, plain-IsSolid _ (show_4_places-IsPlain (suc n)))
    ∙ minus_lem (show_4_places (suc n))
    ∙ unsigned_lem neg_ℕ (suc n)

parse_nothing : parse_decimal [] ≡ none
unfolding parse_decimal strip lstrip rstrip
parse_nothing = refl

price_text_parsed :
    (cs : Text) (d : Decimal)
    → parse_decimal cs ≡ some d
    → price_str_to_decimal (price_text (some cs)) ≡ ok d
unfolding price_text price_str_to_decimal
price_text_parsed [] d h = absurd (ground (arith, parse_nothing))
price_text_parsed (c ∷ cs) d h = rw h refl

quantize_places : (d q : Decimal) → quantize d ≡ ok q → q.places ≡ 4
unfolding quantize
quantize_places d q h = ground arith

at_4_places : (q : Decimal) → q.places ≡ 4 → q ≡ record { coef = q.coef; places = 4 }
at_4_places q h = ap (λ p. record { coef = q.coef; places = p }) h

-- The text that a price is printed as, four digits behind the point, is read back as the rounded
-- price that it stands for.
pub printed_price_reads_back :
    (d q : Decimal)
    → price_decimal_to_str d ≡ ok q
    → price_str_to_decimal (price_text (some (show_decimal q))) ≡ ok q
unfolding price_decimal_to_str
printed_price_reads_back d q h =
    let four = at_4_places q (quantize_places d q h) in
    rw four (price_text_parsed _ _ (parse-show_decimal q.coef))
