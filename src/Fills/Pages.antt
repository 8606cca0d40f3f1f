-- ===== src/Fills/Pages.antt =====
-- Pages of fills that come again, in kalshi_agent/fills.py.
use kalshi_agent.Base.{
  ◌∙◌, ℕ, ◌≡◌, refl, sym, ap, Bool, true, some, List, [], ◌∷◌, ◌++◌, any, All, arith, inl, inr,
  Bool-cases, false,
}
use kalshi_agent.Decimal.{Decimal, eqb_D, of_ℕ}
use kalshi_agent.Result.{ok, Result-cases}
use kalshi_agent.Wire.{KalshiFill}
use kalshi_agent.Storage.{Ledger, Fill}
use kalshi_agent.Positions.{same_fill, apply_fill, fill_row}
use kalshi_agent.Positions.Book.{apply_new_fill-Applied}
use kalshi_agent.Positions.Repeat.{any-append_last, any-same_fill, same_fill_row}
use kalshi_agent.Fills.{post_fill, Progress, note_fill, ingest_fill, ingest_page}

-- The fill carries its time.
abbrev pub IsDated : KalshiFill → Type 0
IsDated f = (ts : ℕ) × (f.created_time ≡ some ts)

abbrev pub IsKnown : ℕ → List Fill → KalshiFill → Type 0
IsKnown now rows f = any (same_fill now f) rows ≡ true

any-append_mono : (p : Fill → Bool) (xs ys : List Fill) → any p xs ≡ true → any p (xs ++ ys) ≡ true
any-append_mono p [] ys h = cc
any-append_mono p (x ∷ xs) ys h = ground (arith, any-append_mono p xs ys)

no_post : (posts : Bool) (f : KalshiFill) → post_fill posts f (of_ℕ 0) ≡ ok tt
unfolding post_fill eqb_D
no_post false f = refl
no_post true f = refl

module _ (posts : Bool) (float_of : Decimal → Decimal) (rate : Decimal) (now : ℕ) where
  apply_fill_keeps :
      (g f : KalshiFill) (db db' : Ledger) (r : Decimal)
      → apply_fill float_of rate now g db ≡ ok (r, db')
      → IsKnown now db.fills f
      → IsKnown now db'.fills f
  apply_fill_keeps g f db db' r e k = elim (Bool-cases (any (same_fill now g) db.fills)) [
    | inl old ↦ unfold apply_fill in ground arith
    | inr new ↦
        let applied =
          apply_new_fill-Applied float_of rate now g db r db' (unfold apply_fill in ground arith) in
        rw applied.fills (any-append_mono (same_fill now f) db.fills _ k)
  ]

  apply_fill-IsKnown :
      (f : KalshiFill) (db db' : Ledger) (r : Decimal)
      → IsDated f
      → apply_fill float_of rate now f db ≡ ok (r, db')
      → IsKnown now db'.fills f
  apply_fill-IsKnown f db db' r (ts, dated) e = elim (Bool-cases (any (same_fill now f) db.fills)) [
    | inl old ↦ apply_fill_keeps f f db db' r e old
    | inr new ↦
        let applied =
          apply_new_fill-Applied float_of rate now f db r db' (unfold apply_fill in ground arith) in
        rw applied.fills (
          any-append_last (same_fill now f) db.fills
            (fill_row f now applied.price_text applied.fee_text)
            (same_fill_row f now now ts applied.price_text applied.fee_text dated))
  ]

  ledger-note_fill :
      (f : KalshiFill) (p : Progress) (r : Decimal) (l : Ledger)
      → (note_fill posts float_of rate now f p r l).db.ledger ≡ l
  unfolding note_fill
  ledger-note_fill f p r l = ground arith

  -- What one fill of a page has done.
  ingest_fill_cases :
      (f : KalshiFill) (p p' : Progress)
      → ingest_fill posts float_of rate now f p ≡ ok p'
      → (r : Decimal) × (apply_fill float_of rate now f p.db.ledger ≡ ok (r, p'.db.ledger))
        × (p' ≡ note_fill posts float_of rate now f p r p'.db.ledger)
  ingest_fill_cases f p p' e = elim (Result-cases (apply_fill float_of rate now f p.db.ledger)) [
    | inr (x, q) ↦ absurd (unfold ingest_fill in ground arith)
    | inl (d, q) ↦
        let same : p' ≡ note_fill posts float_of rate now f p d.0 d.1 =
          elim (Result-cases (post_fill posts f d.0)) [
            | inr (x, t) ↦ absurd (unfold ingest_fill in ground arith)
            | inl (u, t) ↦ unfold ingest_fill in ground arith
          ] in
        let kept : p'.db.ledger ≡ d.1 =
          ap (λ (x : Progress). x.db.ledger) same ∙ ledger-note_fill f p d.0 d.1 in
        (d.0, cc (q, kept), cc (same, kept))
  ]

  ingest_page_cases :
      (f : KalshiFill) (fs : List KalshiFill) (p p' : Progress)
      → ingest_page posts float_of rate now (f ∷ fs) p ≡ ok p'
      → (q : Progress) × (ingest_fill posts float_of rate now f p ≡ ok q)
        × (ingest_page posts float_of rate now fs q ≡ ok p')
  unfolding ingest_page
  ingest_page_cases f fs p p' e = elim (Result-cases (ingest_fill posts float_of rate now f p)) [
    | inr (x, q) ↦ absurd (ground arith)
    | inl (q, eq) ↦ (q, eq, ground arith)
  ]

  ingest_page_keeps :
      (fs : List KalshiFill) (f : KalshiFill) (p p' : Progress)
      → ingest_page posts float_of rate now fs p ≡ ok p'
      → IsKnown now p.db.ledger.fills f
      → IsKnown now p'.db.ledger.fills f
  ingest_page_keeps [] f p p' e k = unfold ingest_page in ground arith
  ingest_page_keeps (g ∷ fs) f p p' e k =
      let (q, first, rest) = ingest_page_cases g fs p p' e in
      let (r, done, same) = ingest_fill_cases g p q first in
      ingest_page_keeps fs f q p' rest (apply_fill_keeps g f p.db.ledger q.db.ledger r done k)

  ingest_page-IsKnown :
      (fs : List KalshiFill) (p p' : Progress)
      → All IsDated fs
      → ingest_page posts float_of rate now fs p ≡ ok p'
      → All (IsKnown now p'.db.ledger.fills) fs
  ingest_page-IsKnown [] p p' dated e = tt
  ingest_page-IsKnown (f ∷ fs) p p' (d, dated) e =
      let (q, first, rest) = ingest_page_cases f fs p p' e in
      let (r, done, same) = ingest_fill_cases f p q first in
      let known = apply_fill-IsKnown f p.db.ledger q.db.ledger r d done in
      (ingest_page_keeps fs f q p' rest known, ingest_page-IsKnown fs q p' dated rest)

  known_page :
      (fs : List KalshiFill) (p : Progress)
      → All (IsKnown now p.db.ledger.fills) fs
      → ingest_page posts float_of rate now fs p ≡ ok p
  unfolding ingest_page ingest_fill note_fill apply_fill eqb_D
  known_page [] p all = refl
  known_page (f ∷ fs) p (k, all) = rw (k, no_post posts f) (known_page fs p all)

module _ (posts : Bool) (float_of : Decimal → Decimal) (rate : Decimal) where
  IsKnown-later :
      (now now' : ℕ) (rows : List Fill) (fs : List KalshiFill)
      → All IsDated fs
      → All (IsKnown now rows) fs
      → All (IsKnown now' rows) fs
  IsKnown-later now now' rows [] dated all = tt
  IsKnown-later now now' rows (f ∷ fs) ((ts, d), dated) (k, all) =
      (sym (any-same_fill f now now' ts rows d) ∙ k, IsKnown-later now now' rows fs dated all)

  -- A page of fills that carry their times, once ingested, changes nothing when it comes again
  -- later: no count, no table and no time moves.
  pub page_again_changes_nothing :
      (now now' : ℕ) (fs : List KalshiFill) (p p' : Progress)
      → All IsDated fs
      → ingest_page posts float_of rate now fs p ≡ ok p'
      → ingest_page posts float_of rate now' fs p' ≡ ok p'
  page_again_changes_nothing now now' fs p p' dated e = known_page posts float_of rate now' fs p' (
      IsKnown-later now now' p'.db.ledger.fills fs dated
        (ingest_page-IsKnown posts float_of rate now fs p p' dated e))
