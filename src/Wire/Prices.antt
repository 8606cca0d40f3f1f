-- ===== src/Wire/Prices.antt =====
-- kalshi_agent/kalshi/types.py: the texts of prices, as lists of code points. `Decimal(str)` is
-- modelled for plain notation: white space around, underscores, a sign, digits and a point.
-- Exponents, infinities, NaN and digits beyond ASCII are left out, and so is the sign of a zero.
pub mod RoundTrip
pub mod Scan
use kalshi_agent.Base.{
  ℕ, zero, suc, ◌+◌, ◌-◌, ◌*◌, ◌/◌, ◌%◌, ◌^◌, Bool, true, false, not, ◌&&◌, Option, none, some,
  List, [], ◌∷◌, ◌++◌, leb, ltb, ◌==◌, if◌then◌else◌,
}
use kalshi_agent.Base.Int.{ℤ, pos, negsuc, neg_ℕ}
use kalshi_agent.Decimal.{Decimal}
use kalshi_agent.Wire.{PriceText, absent, malformed, decimal}
use kalshi_agent.Texts.{Text, is_empty, strip}

abbrev pub is_digit : ℕ → Bool
is_digit c = leb 48 c && leb c 57

-- The digits at the head of a text: what they come to behind `acc`, how many there are with the
-- `n` before, and the rest.
unfoldable pub scan : ℕ → ℕ → Text → ℕ × ℕ × Text
scan acc n [] = (acc, n, [])
scan acc n (c ∷ cs) =
    let rest = scan (acc * 10 + (c - 48)) (suc n) cs in
    if is_digit c then rest else (acc, n, c ∷ cs)

-- The end of a number with `places` digits behind the point, of `digits` digits together.
abbrev pub ended : (ℕ → ℤ) → ℕ → ℕ → Text → ℕ → Option Decimal
ended signed coef digits [] places =
    if digits == 0 then none else some (record { coef = signed coef; places = places })
ended signed coef digits (_ ∷ _) places = none

abbrev pub fraction : (ℕ → ℤ) → ℕ → ℕ → Text → Option Decimal
unfolding scan
fraction signed whole n [] = ended signed whole n [] 0
fraction signed whole n (c ∷ cs) =
    let (coef, digits, rest) = scan whole n cs in
    if c == 46 then ended signed coef digits rest (digits - n) else none

unfoldable pub unsigned : (ℕ → ℤ) → Text → Option Decimal
unfolding scan
unsigned signed cs = let (whole, n, rest) = scan 0 0 cs in fraction signed whole n rest

abbrev pub without_underscores : Text → Text
without_underscores [] = []
without_underscores (c ∷ cs) =
    if c == 95 then without_underscores cs else c ∷ without_underscores cs

abbrev pub signed : Text → Option Decimal
unfolding unsigned
signed [] = none
signed (c ∷ cs) =
    if c == 45
    then unsigned neg_ℕ cs
    else if c == 43
    then unsigned pos cs
    else unsigned pos (c ∷ cs)

-- `Decimal(str)`
unfoldable pub parse_decimal : Text → Option Decimal
unfolding strip unsigned
parse_decimal cs = signed (without_underscores (strip cs))

abbrev parsed : Option Decimal → PriceText
parsed none = malformed
parsed (some d) = decimal d

-- What the rest of the model keeps of an optional price text.
unfoldable pub price_text : Option Text → PriceText
unfolding parse_decimal
price_text none = absent
price_text (some cs) = if is_empty cs then absent else parsed (parse_decimal cs)

-- The digits of `n` before `tail`, from fuel `n`.
unfoldable pub show_digits : ℕ → ℕ → Text → Text
show_digits zero n tail = (48 + n) ∷ tail
show_digits (suc f) n tail =
    let rest = show_digits f (n / 10) ((48 + n % 10) ∷ tail) in
    if ltb n 10 then (48 + n) ∷ tail else rest

-- A magnitude at four places.
unfoldable pub show_4_places : ℕ → Text
unfolding show_digits
show_4_places n =
    let whole = n / 10_000 in
    show_digits whole whole
      (46 ∷ (48 + n / 1000 % 10) ∷ (48 + n / 100 % 10) ∷ (48 + n / 10 % 10) ∷ (48 + n % 10) ∷ [])

-- The text of a decimal of four places.
unfoldable pub show_decimal : Decimal → Text
unfolding show_4_places
show_decimal d = elim d.coef [ pos n ↦ show_4_places n | negsuc n ↦ 45 ∷ show_4_places (suc n) ]
