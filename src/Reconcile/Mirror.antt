-- ===== src/Reconcile/Mirror.antt =====
-- After a reconciliation the local book is Kalshi's: kalshi_agent/safety/reconciliation.py.
use kalshi_agent.Base.{
  ℕ, ◌≡◌, refl, true, Option, none, some, List, [], ◌∷◌, is_some, ◌==◌, if◌then◌else◌, arith, inl,
  inr, Option-cases,
}
use kalshi_agent.Base.Int.{ℤ, pos, negsuc}
use kalshi_agent.Side.{same_side}
use kalshi_agent.Decimal.{Decimal}
use kalshi_agent.Result.{ok, Result-cases}
use kalshi_agent.Wire.{KalshiPosition}
use kalshi_agent.Storage.{Position, get_position, put_position}
use kalshi_agent.Storage.Positions.{get-put_position, get_position_ticker}
use kalshi_agent.Positions.Book.{signed, holding}
use kalshi_agent.Reconcile.{
  Work, put_remote, remote_by_ticker, find_remote, target, adopted, corrected, settle, settle_all,
  close_absent, realized_of, reconcile_positions,
}

abbrev position_or_zero : Option KalshiPosition → ℤ
position_or_zero none = pos 0
position_or_zero (some r) = r.position

-- The signed position that the list of Kalshi's answer has for a market: that of its last entry.
pub last_remote : ℕ → List KalshiPosition → Option KalshiPosition
last_remote t [] = none
last_remote t (r ∷ rs) = elim (last_remote t rs) [
  | some x ↦ some x
  | none ↦ if r.ticker == t then some r else none
]

abbrev pub remote_holding : ℕ → List KalshiPosition → ℤ
remote_holding t rs = position_or_zero (last_remote t rs)

signed-target : (z : ℤ) (p : Position) → (p.side, p.count) ≡ target z → signed p ≡ z
unfolding target
signed-target (pos n) p e = ground arith
signed-target (negsuc n) p e = ground arith

agreeing_row :
    (z : ℤ) (p : Position)
    → (p.count == (target z).1) ≡ true
    → same_side p.side (target z).0 ≡ true
    → signed p ≡ z
unfolding target
agreeing_row (pos n) p c d = ground arith
agreeing_row (negsuc n) p c d = ground arith

signed-target_row :
    (z : ℤ) (p : Position) → p.side ≡ (target z).0 → p.count ≡ (target z).1 → signed p ≡ z
unfolding target
signed-target_row (pos n) p c d = ground arith
signed-target_row (negsuc n) p c d = ground arith

holding-put :
    (t : ℕ) (q : Position) (ps : List Position)
    → holding t (put_position q ps) ≡ (if q.market_ticker == t then signed q else holding t ps)
holding-put t q ps = rw get-put_position (ground arith)

-- A settled entry gives its market the remote position, and leaves the others alone.
holding-settle :
    (r : KalshiPosition) (realized : Decimal) (now : ℕ) (w : Work) (t : ℕ)
    → holding t (settle r realized now (get_position r.ticker w.positions) w).positions
      ≡ (if r.ticker == t then r.position else holding t w.positions)
holding-settle r realized now w t = elim (Option-cases (get_position r.ticker w.positions)) [
  | inl e ↦
      let q = adopted r (target r.position) realized now in
      rw e (
        unfold settle in
        ground (arith, holding-put t q w.positions, signed-target_row r.position q))
  | inr (p, e) ↦
      let q = corrected r (target r.position) realized p in
      rw e (
        unfold settle in
        ground (
          arith,
          holding-put t q w.positions,
          signed-target_row r.position q,
          get_position_ticker r.ticker w.positions p,
          agreeing_row r.position p,
        ))
]

module _ (float_of : Decimal → Decimal) where
  holding-settle_all :
      (now : ℕ) (rs : List KalshiPosition) (w w' : Work) (t : ℕ)
      → settle_all float_of now rs w ≡ ok w'
      → holding t w'.positions
        ≡ (if is_some (last_remote t rs) then remote_holding t rs else holding t w.positions)
  unfolding settle_all last_remote
  holding-settle_all now [] w w' t e = ground arith
  holding-settle_all now (r ∷ rs) w w' t e =
      elim (Result-cases (realized_of float_of r.realized_pnl_dollars)) [
        | inr (x, q) ↦ absurd (ground arith)
        | inl (d, q) ↦
            let v = settle r d now (get_position r.ticker w.positions) w in
            ground (arith, holding-settle_all now rs v w' t, holding-settle r d now w t)
      ]

-- Rows of markets that Kalshi does not have hold nothing after `close_absent`.
holding-close_absent :
    (book : List KalshiPosition) (ps : List Position) (t : ℕ)
    → holding t (close_absent book ps).positions
      ≡ (if is_some (find_remote t book) then holding t ps else pos 0)
unfolding close_absent get_position
holding-close_absent book [] t = ground arith
holding-close_absent book (p ∷ ps) t = ground (arith, holding-close_absent book ps t)

find-put_remote :
    (t : ℕ) (r : KalshiPosition) (qs : List KalshiPosition)
    → find_remote t (put_remote r qs) ≡ (if r.ticker == t then some r else find_remote t qs)
unfolding find_remote put_remote
find-put_remote t r [] = refl
find-put_remote t r (q ∷ qs) = ground (arith, find-put_remote t r qs)

-- The dictionary holds the last entry for each market.
find-remote_by_ticker :
    (t : ℕ) (rs acc : List KalshiPosition)
    → find_remote t (remote_by_ticker acc rs)
      ≡ (if is_some (last_remote t rs) then last_remote t rs else find_remote t acc)
unfolding remote_by_ticker last_remote
find-remote_by_ticker t [] acc = refl
find-remote_by_ticker t (r ∷ rs) acc =
    ground (arith, find-remote_by_ticker t rs (put_remote r acc), find-put_remote t r acc)

-- No market is listed twice.
abbrev pub IsDistinct : List KalshiPosition → Type 0
IsDistinct [] = Unit
IsDistinct (r ∷ rs) = (find_remote r.ticker rs ≡ none) × IsDistinct rs

put_remote-IsDistinct :
    (r : KalshiPosition) (qs : List KalshiPosition) → IsDistinct qs → IsDistinct (put_remote r qs)
unfolding put_remote find_remote
put_remote-IsDistinct r [] h = (refl, tt)
put_remote-IsDistinct r (q ∷ qs) (new, rest) =
    ground (arith, put_remote-IsDistinct r qs rest, find-put_remote q.ticker r qs)

pub remote_by_ticker-IsDistinct :
    (rs acc : List KalshiPosition) → IsDistinct acc → IsDistinct (remote_by_ticker acc rs)
unfolding remote_by_ticker
remote_by_ticker-IsDistinct [] acc h = h
remote_by_ticker-IsDistinct (r ∷ rs) acc h =
    remote_by_ticker-IsDistinct rs (put_remote r acc) (put_remote-IsDistinct r acc h)

last-eq-find :
    (t : ℕ) (rs : List KalshiPosition) → IsDistinct rs → last_remote t rs ≡ find_remote t rs
unfolding last_remote find_remote
last-eq-find t [] h = refl
last-eq-find t (r ∷ rs) (new, rest) = ground (arith, last-eq-find t rs rest)

pub last-remote_by_ticker :
    (t : ℕ) (remote : List KalshiPosition)
    → (last_remote t (remote_by_ticker [] remote) ≡ last_remote t remote)
      × (find_remote t (remote_by_ticker [] remote) ≡ last_remote t remote)
unfolding find_remote
last-remote_by_ticker t remote = ground (
  arith,
  find-remote_by_ticker t remote [],
  last-eq-find t (remote_by_ticker [] remote) (remote_by_ticker-IsDistinct remote [] tt),
)

-- After a reconciliation that returns, the signed position of every market is the one that Kalshi
-- reports, and 0 where Kalshi reports none.
pub reconciled_mirrors_kalshi :
    (float_of : Decimal → Decimal) (now : ℕ) (remote : List KalshiPosition) (ps : List Position)
    (w : Work) (t : ℕ)
    → reconcile_positions float_of now remote ps ≡ ok w
    → holding t w.positions ≡ remote_holding t remote
reconciled_mirrors_kalshi float_of now remote ps w t e =
    let book = remote_by_ticker [] remote in
    let start : Work = record { positions = ps; discrepancies = [] } in
    elim (Result-cases (settle_all float_of now book start)) [
      | inr (x, q) ↦ absurd (unfold reconcile_positions in ground arith)
      | inl (v, q) ↦
          let closed : w.positions ≡ (close_absent book v.positions).positions =
            unfold reconcile_positions in ground arith in
          ground (
            arith,
            closed,
            holding-settle_all float_of now book start v t q,
            holding-close_absent book v.positions t,
            last-remote_by_ticker t remote,
          )
    ]
