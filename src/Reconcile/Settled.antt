-- ===== src/Reconcile/Settled.antt =====
-- The rows that kalshi_agent/safety/reconciliation.py has settled agree with Kalshi's answer.
use kalshi_agent.Base.{
  ℕ, ◌≡◌, ◌∙◌, refl, ap, Bool, true, false, not, ◌&&◌, ◌||◌, Option, none, some, List, [], ◌∷◌, All,
  ◌==◌, arith, inl, inr, Bool-cases,
}
use kalshi_agent.Side.{same_side}
use kalshi_agent.Decimal.{Decimal}
use kalshi_agent.Result.{ok, Result-cases}
use kalshi_agent.Wire.{KalshiPosition}
use kalshi_agent.Storage.{Position, get_position, put_position}
use kalshi_agent.Storage.Positions.{get-put_position, get_position_ticker}
use kalshi_agent.Reconcile.{
  Work, find_remote, target, adopted, corrected, settle, settle_all, realized_of,
}
use kalshi_agent.Reconcile.Mirror.{IsDistinct}

-- The row of a market has the side and the count that Kalshi reports.
abbrev pub row_agrees : KalshiPosition → Option Position → Bool
row_agrees r none = false
row_agrees r (some p) = p.count == (target r.position).1 && same_side p.side (target r.position).0

abbrev pub agrees : List Position → KalshiPosition → Bool
agrees ps r = row_agrees r (get_position r.ticker ps)

same_side_refl : (r : KalshiPosition) → same_side (target r.position).0 (target r.position).0 ≡ true
same_side_refl r = ground arith

put_agrees :
    (r : KalshiPosition) (q : Position) (ps : List Position)
    → q.market_ticker ≡ r.ticker
    → q.side ≡ (target r.position).0
    → q.count ≡ (target r.position).1
    → agrees (put_position q ps) r ≡ true
put_agrees r q ps ticker side count =
    let own : (q.market_ticker == r.ticker) ≡ true = ground arith in
    rw get-put_position (rw own (rw (side, same_side_refl r) (ground arith)))

put_elsewhere :
    (t : ℕ) (q : Position) (ps : List Position)
    → (q.market_ticker == t) ≡ false
    → get_position t (put_position q ps) ≡ get_position t ps
put_elsewhere t q ps other = rw get-put_position (rw other refl)

like_row : (a b : Bool) → (a && b) ≡ true → (not a || not b) ≡ false
like_row true true h = refl
like_row true false h = absurd (ground arith)
like_row false b h = absurd (ground arith)

unlike_row : (a b : Bool) → (a && b) ≡ false → (not a || not b) ≡ true
unlike_row true true h = absurd (ground arith)
unlike_row true false h = refl
unlike_row false b h = refl

settle-agrees :
    (r : KalshiPosition) (d : Decimal) (now : ℕ) (o : Option Position) (w : Work)
    → get_position r.ticker w.positions ≡ o
    → agrees (settle r d now o w).positions r ≡ true
unfolding settle
settle-agrees r d now none w e =
    put_agrees r (adopted r (target r.position) d now) w.positions refl refl refl
settle-agrees r d now (some p) w e = elim (Bool-cases (row_agrees r (some p))) [
  | inl same ↦ rw (like_row _ _ same) (ap (row_agrees r) e ∙ same)
  | inr other ↦ rw (unlike_row _ _ other) (
      put_agrees r (corrected r (target r.position) d p) w.positions
        (get_position_ticker r.ticker w.positions p e) refl refl)
]

settle_elsewhere :
    (r : KalshiPosition) (d : Decimal) (now : ℕ) (o : Option Position) (w : Work) (t : ℕ)
    → get_position r.ticker w.positions ≡ o
    → (r.ticker == t) ≡ false
    → get_position t (settle r d now o w).positions ≡ get_position t w.positions
unfolding settle
settle_elsewhere r d now none w t e other = put_elsewhere t _ w.positions other
settle_elsewhere r d now (some p) w t e other =
    let ticker = get_position_ticker r.ticker w.positions p e in
    elim (Bool-cases (row_agrees r (some p))) [
      | inl same ↦ rw (like_row _ _ same) refl
      | inr unlike ↦
          rw (unlike_row _ _ unlike)
            (put_elsewhere t _ w.positions (ap (λ x. x == t) ticker ∙ other))
    ]

pub All-weaken :
    {A : Type 0} (P Q : A → Type 0) (xs : List A) → ((x : A) → P x → Q x) → All P xs → All Q xs
All-weaken P Q [] f tt = tt
All-weaken P Q (x ∷ xs) f (p, ps) = (f x p, All-weaken P Q xs f ps)

module _ (float_of : Decimal → Decimal) where
  -- The realized gain of the entry can be read.
  abbrev pub Readable : KalshiPosition → Type 0
  Readable r = (d : Decimal) × (realized_of float_of r.realized_pnl_dollars ≡ ok d)

  settle_all_elsewhere :
      (now : ℕ) (rs : List KalshiPosition) (w w' : Work) (t : ℕ)
      → settle_all float_of now rs w ≡ ok w'
      → find_remote t rs ≡ none
      → get_position t w'.positions ≡ get_position t w.positions
  unfolding settle_all find_remote
  settle_all_elsewhere now [] w w' t e h = ground arith
  settle_all_elsewhere now (r ∷ rs) w w' t e h =
      elim (Result-cases (realized_of float_of r.realized_pnl_dollars)) [
        | inr (x, q) ↦ absurd (ground arith)
        | inl (d, q) ↦
            let o = get_position r.ticker w.positions in
            let other : (r.ticker == t) ≡ false = ground arith in
            settle_all_elsewhere now rs (settle r d now o w) w' t (ground arith) (ground arith)
            ∙ settle_elsewhere r d now o w t refl other
      ]

  pub settle_all-agrees :
      (now : ℕ) (rs : List KalshiPosition) (w w' : Work)
      → IsDistinct rs
      → settle_all float_of now rs w ≡ ok w'
      → All (λ r. agrees w'.positions r ≡ true) rs
  unfolding settle_all
  settle_all-agrees now [] w w' h e = tt
  settle_all-agrees now (r ∷ rs) w w' (new, rest) e =
      elim (Result-cases (realized_of float_of r.realized_pnl_dollars)) [
        | inr (x, q) ↦ absurd (ground arith)
        | inl (d, q) ↦
            let o = get_position r.ticker w.positions in
            let v = settle r d now o w in
            let behind : settle_all float_of now rs v ≡ ok w' = ground arith in
            (
              ap (row_agrees r) (settle_all_elsewhere now rs v w' r.ticker behind new)
                  ∙ settle-agrees r d now o w refl,
              settle_all-agrees now rs v w' rest behind,
            )
      ]

  pub settle_all-Readable :
      (now : ℕ) (rs : List KalshiPosition) (w w' : Work)
      → settle_all float_of now rs w ≡ ok w'
      → All Readable rs
  unfolding settle_all
  settle_all-Readable now [] w w' e = tt
  settle_all-Readable now (r ∷ rs) w w' e =
      elim (Result-cases (realized_of float_of r.realized_pnl_dollars)) [
        | inr (x, q) ↦ absurd (ground arith)
        | inl (d, q) ↦
            let v = settle r d now (get_position r.ticker w.positions) w in
            ((d, q), settle_all-Readable now rs v w' (ground arith))
      ]

  settle_idle :
      (r : KalshiPosition) (d : Decimal) (now : ℕ) (o : Option Position) (w : Work)
      → row_agrees r o ≡ true
      → settle r d now o w ≡ w
  unfolding settle
  settle_idle r d now none w h = absurd (ground arith)
  settle_idle r d now (some p) w h = rw (like_row _ _ h) refl

  pub settle_all_idle :
      (now : ℕ) (rs : List KalshiPosition) (w : Work)
      → All (λ r. agrees w.positions r ≡ true) rs
      → All Readable rs
      → settle_all float_of now rs w ≡ ok w
  unfolding settle_all
  settle_all_idle now [] w h k = refl
  settle_all_idle now (r ∷ rs) w (h, hs) ((d, q), ks) = rw q (
      ap (settle_all float_of now rs) (settle_idle r d now (get_position r.ticker w.positions) w h)
      ∙ settle_all_idle now rs w hs ks)
