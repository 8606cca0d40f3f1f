-- ===== src/Assessor/Emission.antt =====
-- Which signals kalshi_agent/strategies/llm_market_assessor.py emits.
use kalshi_agent.Base.{
  ℕ, ◌+◌, ◌*◌, ◌≡◌, refl, true, false, not, ◌||◌, ◌&&◌, String, List, [], ◌∷◌, ◌++◌, All, arith,
  inl, inr, Bool-cases,
}
use kalshi_agent.Side.{Side, yes_side, no_side}
use kalshi_agent.Decimal.{Decimal, of_ℕ, ◌-D◌, leb_D, ltb_D, quantize}
use kalshi_agent.Result.{Result, ok, err, llm_error, Result-cases}
use kalshi_agent.Wire.{Market, price_str_to_decimal}
use kalshi_agent.Config.{AssessorConfig}
use kalshi_agent.Signal.{Signal}
use kalshi_agent.Execution.{is_open, has_text}
use kalshi_agent.Assessor.{
  Reply, bad_schema, assessed, Verdict, signalled, out_of_range, below_confidence, below_edge,
  in_unit, verdict, second, signal_for, after_reply, assess, assess_all,
}

-- The edge of a side.
abbrev pub edge_of : Side → Decimal → Decimal → Decimal
edge_of yes_side yes_edge no_edge = yes_edge
edge_of no_side yes_edge no_edge = no_edge

-- What a verdict for a side rests on: numbers in [0, 1], the minimum confidence, the minimum edge of
-- the side, and for YES an edge not below that of NO, for NO no such edge of YES.
abbrev pub Passes : AssessorConfig → Decimal → Decimal → Decimal → Decimal → Side → Type 0
Passes cfg prob conf yes_edge no_edge side =
    (in_unit prob ≡ true)
    × (in_unit conf ≡ true)
    × (ltb_D conf cfg.min_confidence ≡ false)
    × (leb_D cfg.min_edge (edge_of side yes_edge no_edge) ≡ true)
    × (side ≡ yes_side → leb_D no_edge yes_edge ≡ true)
    × (side ≡ no_side → (leb_D cfg.min_edge yes_edge && leb_D no_edge yes_edge) ≡ false)

verdict-Passes :
    (cfg : AssessorConfig) (prob conf yes_edge no_edge : Decimal) (side : Side)
    → verdict cfg prob conf yes_edge no_edge ≡ signalled side
    → Passes cfg prob conf yes_edge no_edge side
unfolding verdict
verdict-Passes cfg prob conf yes_edge no_edge yes_side e = ground arith
verdict-Passes cfg prob conf yes_edge no_edge no_side e = ground arith

module _ (lower : String → String) (cfg : AssessorConfig) (chat : Market → Result Reply) where
  -- The signal stands for an open market with two asks and the reply of the language model to it.
  abbrev pub IsGrounded : Signal → Type 0
  IsGrounded sig =
      (m : Market) × (now : ℕ) × (yes_ask no_ask : Decimal) × (sig.market_ticker ≡ m.ticker)
      × (is_open lower m ≡ true)
      × (price_str_to_decimal m.yes_ask_dollars ≡ ok yes_ask)
      × (price_str_to_decimal m.no_ask_dollars ≡ ok no_ask)
      × (chat m ≡ ok (assessed now sig.model_probability sig.confidence))
      × (sig.valid_until ≡ now + cfg.signal_ttl_minutes * (60 * second))
      × Passes cfg sig.model_probability sig.confidence (sig.model_probability -D yes_ask)
          (of_ℕ 1 -D sig.model_probability -D no_ask) sig.side

  signal_for-IsGrounded :
      (now : ℕ) (m : Market) (prob conf yes_ask no_ask : Decimal) (v : Verdict)
      → is_open lower m ≡ true
      → price_str_to_decimal m.yes_ask_dollars ≡ ok yes_ask
      → price_str_to_decimal m.no_ask_dollars ≡ ok no_ask
      → chat m ≡ ok (assessed now prob conf)
      → verdict cfg prob conf (prob -D yes_ask) (of_ℕ 1 -D prob -D no_ask) ≡ v
      → All IsGrounded (signal_for lower cfg now m prob conf v)
  signal_for-IsGrounded now m prob conf yes_ask no_ask (signalled side) active yes_price no_price
        replied e =
      let passes =
        verdict-Passes cfg prob conf (prob -D yes_ask) (of_ℕ 1 -D prob -D no_ask) side e in
      ((m, now, yes_ask, no_ask, refl, active, yes_price, no_price, replied, refl, passes), tt)
  signal_for-IsGrounded now m prob conf yes_ask no_ask out_of_range active yes_price no_price
        replied e =
      tt
  signal_for-IsGrounded now m prob conf yes_ask no_ask below_confidence active yes_price no_price
        replied e =
      tt
  signal_for-IsGrounded now m prob conf yes_ask no_ask below_edge active yes_price no_price replied
        e =
      tt

  after_reply-IsGrounded :
      (m : Market) (yes_ask no_ask : Decimal) (answer : Result Reply) (signals : List Signal)
      → is_open lower m ≡ true
      → price_str_to_decimal m.yes_ask_dollars ≡ ok yes_ask
      → price_str_to_decimal m.no_ask_dollars ≡ ok no_ask
      → chat m ≡ answer
      → after_reply lower cfg m yes_ask no_ask answer ≡ ok signals
      → All IsGrounded signals
  unfolding after_reply
  after_reply-IsGrounded m yes_ask no_ask (err llm_error) signals active yes_price no_price replied
        e =
      let same : signals ≡ [] = ground arith in rw same tt
  after_reply-IsGrounded m yes_ask no_ask (err _) signals active yes_price no_price replied e =
      absurd (ground arith)
  after_reply-IsGrounded m yes_ask no_ask (ok bad_schema) signals active yes_price no_price replied
        e =
      let same : signals ≡ [] = ground arith in rw same tt
  after_reply-IsGrounded m yes_ask no_ask (ok (assessed now prob conf)) signals active yes_price
        no_price replied e =
      let yes_edge = prob -D yes_ask in
      let no_edge = of_ℕ 1 -D prob -D no_ask in
      let same : signals
          ≡ signal_for lower cfg now m prob conf (verdict cfg prob conf yes_edge no_edge) =
        elim (Result-cases (quantize yes_edge)) [
          | inr (x, q) ↦ absurd (ground arith)
          | inl (d, q) ↦ elim (Result-cases (quantize no_edge)) [
            | inr (x, r) ↦ absurd (ground arith)
            | inl (d', r) ↦ ground arith
          ]
        ] in
      rw same (
        signal_for-IsGrounded now m prob conf yes_ask no_ask _ active yes_price no_price replied
          refl)

  assess-IsGrounded :
      (m : Market) (signals : List Signal)
      → assess lower cfg chat m ≡ ok signals
      → All IsGrounded signals
  unfolding assess
  assess-IsGrounded m signals e = elim (Bool-cases (is_open lower m)) [
    | inr q ↦ let same : signals ≡ [] = ground arith in rw same tt
    | inl q ↦
        elim (Bool-cases (not (has_text m.yes_ask_dollars) || not (has_text m.no_ask_dollars))) [
          | inl t ↦ let same : signals ≡ [] = ground arith in rw same tt
          | inr t ↦ elim (Result-cases (price_str_to_decimal m.yes_ask_dollars)) [
            | inr (x, y) ↦ absurd (ground arith)
            | inl (yes_ask, y) ↦ elim (Result-cases (price_str_to_decimal m.no_ask_dollars)) [
              | inr (x, n) ↦ absurd (ground arith)
              | inl (no_ask, n) ↦
                  after_reply-IsGrounded m yes_ask no_ask (chat m) signals q y n refl (ground arith)
            ]
          ]
        ]
  ]

  All-append :
      (xs ys : List Signal) → All IsGrounded xs → All IsGrounded ys → All IsGrounded (xs ++ ys)
  All-append [] ys a b = b
  All-append (x ∷ xs) ys (here, a) b = (here, All-append xs ys a b)

  -- Every signal of a tick that returns stands for an open market with two asks: its numbers are
  -- those of the reply of the language model and lie in [0, 1], its confidence reaches the minimum
  -- and so does the edge of its side; for YES that edge is not below that of NO, and for NO the edge
  -- of YES is below the minimum or below that of NO. It expires when its time to live is over.
  pub assess_all-IsGrounded :
      (ms : List Market) (signals : List Signal)
      → assess_all lower cfg chat ms ≡ ok signals
      → All IsGrounded signals
  unfolding assess_all
  assess_all-IsGrounded [] signals e = let same : signals ≡ [] = ground arith in rw same tt
  assess_all-IsGrounded (m ∷ ms) signals e = elim (Result-cases (assess lower cfg chat m)) [
    | inr (x, q) ↦ absurd (ground arith)
    | inl (first, q) ↦ elim (Result-cases (assess_all lower cfg chat ms)) [
      | inr (x, r) ↦ absurd (ground arith)
      | inl (rest, r) ↦
          let same : signals ≡ first ++ rest = ground arith in
          rw same
            (All-append first rest (assess-IsGrounded m first q) (assess_all-IsGrounded ms rest r))
    ]
  ]
