-- ===== src/Client/Cancel.antt =====
-- How many orders `cancel_all_resting` of kalshi_agent/kalshi/client.py cancels.
use kalshi_agent.Base.{
  ◌++◌, ◌≢◌, ℕ, suc, ◌+◌, ◌≤◌, ◌≡◌, ◌∙◌, ap, refl, Bool, true, false, List, [], ◌∷◌, length,
  count_if, count_if-le, All, arith, inl, inr,
}
use kalshi_agent.Result.{Exn, Result, ok, err, api_error, Result-cases}
use kalshi_agent.Wire.{OrderResponse}
use kalshi_agent.Client.{after_cancel, cancel_each, cancel_all_resting}

abbrev pub succeeds : (ℕ → Result (Unit {0})) → OrderResponse → Bool
succeeds cancel o = elim (cancel o.order_id) [ ok _ ↦ true | err _ ↦ false ]

-- The cancellation of the order gives a result or an API error.
abbrev pub IsHandled : (ℕ → Result (Unit {0})) → OrderResponse → Type 0
IsHandled cancel o = (e : Exn) → cancel o.order_id ≡ err e → e ≡ api_error

cancel_each_counts :
    (cancel : ℕ → Result (Unit {0})) (os : List OrderResponse) (n : ℕ)
    → All (IsHandled cancel) os
    → cancel_each cancel os n ≡ ok (n + count_if (succeeds cancel) os)
unfolding cancel_each after_cancel
cancel_each_counts cancel [] n h = ap ok (omega arith)
cancel_each_counts cancel (o ∷ os) n (here, rest) = elim (Result-cases (cancel o.order_id)) [
  | inl (a, q) ↦
      let counted : succeeds cancel o ≡ true = rw (q, succeeds) refl in
      rw q (cancel_each_counts cancel os (suc n) rest ∙ ap ok (rw counted (omega arith)))
  | inr (e, q) ↦
      let skipped : succeeds cancel o ≡ false = rw (q, succeeds) refl in
      rw q (rw (here e q) (cancel_each_counts cancel os n rest ∙ ap ok (rw skipped (omega arith))))
]

after_cancel_aborts :
    (e : Exn) (n : ℕ) (next : ℕ → Result ℕ) → e ≢ api_error → after_cancel (err e) n next ≡ err e
unfolding after_cancel
after_cancel_aborts e n next ne = ground arith

cancel_each_aborts :
    (cancel : ℕ → Result (Unit {0})) (os : List OrderResponse) (o : OrderResponse)
    (more : List OrderResponse) (n : ℕ) (e : Exn)
    → All (IsHandled cancel) os
    → cancel o.order_id ≡ err e
    → e ≢ api_error
    → cancel_each cancel (os ++ o ∷ more) n ≡ err e
unfolding cancel_each after_cancel
cancel_each_aborts cancel [] o more n e h q ne = rw q (after_cancel_aborts e n _ ne)
cancel_each_aborts cancel (p ∷ os) o more n e (here, rest) q ne =
    elim (Result-cases (cancel p.order_id)) [
      | inl (a, r) ↦ rw r (cancel_each_aborts cancel os o more (suc n) e rest q ne)
      | inr (x, r) ↦ rw r (rw (here x r) (cancel_each_aborts cancel os o more n e rest q ne))
    ]

-- Where no cancellation fails but with an API error, every resting order is tried and the count is
-- that of the successes, not more than the resting orders; an error of another kind ends the loop
-- with it, however many orders have been cancelled before and come after.
pub every_resting_tried :
    (cancel : ℕ → Result (Unit {0})) (os : List OrderResponse)
    → All (IsHandled cancel) os
    → (cancel_all_resting cancel (ok os) ≡ ok (count_if (succeeds cancel) os))
      × (count_if (succeeds cancel) os ≤ length os)
      × ((o : OrderResponse) (more : List OrderResponse) (e : Exn)
          → cancel o.order_id ≡ err e
          → e ≢ api_error
          → cancel_all_resting cancel (ok (os ++ o ∷ more)) ≡ err e)
unfolding cancel_all_resting
every_resting_tried cancel os h = (
  cancel_each_counts cancel os 0 h ∙ ap ok (omega arith),
  count_if-le (succeeds cancel) os,
  λ o more e q ne. cancel_each_aborts cancel os o more 0 e h q ne,
)
