-- ===== src/Reconcile/Again.antt =====
-- A second reconciliation of kalshi_agent/safety/reconciliation.py with the same answer of Kalshi.
use kalshi_agent.Base.{
  ℕ, ◌≡◌, ◌∙◌, refl, ap, true, false, not, ◌&&◌, Option, none, some, List, [], ◌∷◌, All, is_some,
  ◌==◌, arith, inl, inr, Bool-cases,
}
use kalshi_agent.Decimal.{Decimal}
use kalshi_agent.Result.{ok, Result-cases}
use kalshi_agent.Wire.{KalshiPosition}
use kalshi_agent.Storage.{Position, get_position}
use kalshi_agent.Reconcile.{
  Work, remote_by_ticker, find_remote, settle_all, close_absent, reconcile_positions,
}
use kalshi_agent.Reconcile.Mirror.{remote_by_ticker-IsDistinct}
use kalshi_agent.Reconcile.Settled.{
  row_agrees, agrees, All-weaken, settle_all-agrees, settle_all-Readable, settle_all_idle,
}

close_keeps :
    (book : List KalshiPosition) (ps : List Position) (t : ℕ)
    → is_some (find_remote t book) ≡ true
    → get_position t (close_absent book ps).positions ≡ get_position t ps
unfolding close_absent get_position
close_keeps book [] t h = refl
close_keeps book (p ∷ ps) t h = ground (arith, close_keeps book ps t h)

closed_stays : (o : Option KalshiPosition) → (not (is_some o) && not (0 == 0)) ≡ false
closed_stays none = refl
closed_stays (some r) = refl

close_again :
    (book : List KalshiPosition) (ps : List Position)
    → close_absent book (close_absent book ps).positions
      ≡ record { positions = (close_absent book ps).positions; discrepancies = [] }
unfolding close_absent
close_again book [] = refl
close_again book (p ∷ ps) =
    elim (Bool-cases (not (is_some (find_remote p.market_ticker book)) && not (p.count == 0))) [
      | inl q ↦
          rw q
            (rw (closed_stays (find_remote p.market_ticker book)) (rw (close_again book ps) refl))
      | inr q ↦ rw q (rw q (rw (close_again book ps) refl))
    ]

listed : (rs : List KalshiPosition) → All (λ r. is_some (find_remote r.ticker rs) ≡ true) rs
unfolding find_remote
listed [] = tt
listed (r ∷ rs) = (
  ground arith,
  All-weaken (λ x. is_some (find_remote x.ticker rs) ≡ true)
      (λ x. is_some (find_remote x.ticker (r ∷ rs)) ≡ true) rs (λ x h. ground arith) (listed rs),
)

closed_agrees :
    (book rs : List KalshiPosition) (ps : List Position)
    → All (λ r. agrees ps r ≡ true) rs
    → All (λ r. is_some (find_remote r.ticker book) ≡ true) rs
    → All (λ r. agrees (close_absent book ps).positions r ≡ true) rs
closed_agrees book [] ps h k = tt
closed_agrees book (r ∷ rs) ps (h, hs) (k, ks) =
    (ap (row_agrees r) (close_keeps book ps r.ticker k) ∙ h, closed_agrees book rs ps hs ks)

-- A second reconciliation with the same answer of Kalshi finds no discrepancy and leaves every row as
-- it is.
pub second_reconciliation_idle :
    (float_of : Decimal → Decimal) (now later : ℕ) (remote : List KalshiPosition)
    (ps : List Position) (w : Work)
    → reconcile_positions float_of now remote ps ≡ ok w
    → reconcile_positions float_of later remote w.positions
      ≡ ok (record { positions = w.positions; discrepancies = [] })
unfolding reconcile_positions
second_reconciliation_idle float_of now later remote ps w e =
    let book = remote_by_ticker [] remote in
    let start : Work = record { positions = ps; discrepancies = [] } in
    elim (Result-cases (settle_all float_of now book start)) [
      | inr (x, q) ↦ absurd (ground arith)
      | inl (v, q) ↦
          let closed : w.positions ≡ (close_absent book v.positions).positions = ground arith in
          let distinct = remote_by_ticker-IsDistinct remote [] tt in
          let kept : All (λ r. agrees (close_absent book v.positions).positions r ≡ true) book =
            closed_agrees book book v.positions
              (settle_all-agrees float_of now book start v distinct q) (listed book) in
          rw closed (
            rw
              (settle_all_idle float_of later book
                (record {
                  positions = (close_absent book v.positions).positions;
                  discrepancies = [];
                })
                kept (settle_all-Readable float_of now book start v q))
              (rw (close_again book v.positions) refl))
    ]
