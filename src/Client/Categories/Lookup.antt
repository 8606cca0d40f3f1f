-- ===== src/Client/Categories/Lookup.antt =====
-- What the second loop of `_enrich_categories` in kalshi_agent/kalshi/client.py makes of a market.
use kalshi_agent.Base.{
  ℕ, ◌≡◌, refl, Bool, true, false, ◌&&◌, Option, none, some, String, List, [], ◌∷◌, map, contains,
  arith, Bool-cases, inl, inr, ◌==◌, if◌then◌else◌, ap, ◌∙◌, sym,
}
use kalshi_agent.Result.{Exn, Result, ok, err, api_error, Result-cases}
use kalshi_agent.Wire.{Market}
use kalshi_agent.Client.Categories.{
  is_blank, has_event, fill_category, Enriched, store, after_event, look_up_each,
}

-- The category that an answer stands for.
abbrev pub answered : Result (Option String) → Option String
answered (ok c) = c
answered (err _) = none

abbrev pub with_category : Market → Option String → Market
with_category m c = record m { category = c }

-- The category behind the lookup of the event `e`, and behind that of the events `es`.
abbrev then_category : ℕ → Option String → Option ℕ → Option String → Option String
then_category e c ev own = if has_event e ev && is_blank own then c else own

fill_category_lem :
    (e : ℕ) (c : Option String) (m : Market)
    → fill_category e c m ≡ with_category m (then_category e c m.event_ticker m.category)
fill_category_lem e c m = elim (Bool-cases (has_event e m.event_ticker && is_blank m.category)) [
  | inl q ↦ rw q refl
  | inr q ↦ rw q refl
]

if_same {ℓ} : {A : Type ℓ} (b : Bool) (x : A) → (if b then x else x) ≡ x
if_same true x = refl
if_same false x = refl

module _ (get_event : ℕ → Result (Option String)) where
  abbrev pub looked_up : List ℕ → Option ℕ → Option String → Option String
  looked_up es none own = own
  looked_up es (some e) own = if contains e es && is_blank own then answered (get_event e) else own

  looked_up_none : (ev : Option ℕ) (own : Option String) → looked_up [] ev own ≡ own
  looked_up_none none own = refl
  looked_up_none (some e) own = refl

  looked_up_step :
      (e : ℕ) (es : List ℕ) (ev : Option ℕ) (own : Option String)
      → looked_up es ev (then_category e (answered (get_event e)) ev own)
        ≡ looked_up (e ∷ es) ev own
  looked_up_step e es none own = refl
  looked_up_step e es (some k) own = elim (Bool-cases (k == e)) [
    | inl q ↦
        let same : e ≡ k = ground arith in
        elim (Bool-cases (is_blank own)) [
          | inl r ↦ rw (q, r) (rw same (if_same _ (answered (get_event k))))
          | inr r ↦ rw (q, r) (rw r (ground arith))
        ]
    | inr q ↦ rw q refl
  ]

map_same : {A : Type 0} (f : A → A) (xs : List A) → ((x : A) → f x ≡ x) → map f xs ≡ xs
map_same f [] e = refl
map_same f (x ∷ xs) e = rw (e x, map_same f xs e) refl

map-map :
    {A B C : Type 0} (g : B → C) (f : A → B) (h : A → C) (xs : List A)
    → ((x : A) → g (f x) ≡ h x)
    → map g (map f xs) ≡ map h xs
map-map g f h [] e = refl
map-map g f h (x ∷ xs) e = rw (e x, map-map g f h xs e) refl

module _ (get_event : ℕ → Result (Option String))
    (handled : (e : ℕ) (x : Exn) → get_event e ≡ err x → x ≡ api_error) (now : ℕ) where
  after_handled :
      (e : ℕ) (w : Enriched) (next : Enriched → Result (Unit {0}) × Enriched)
      → after_event now e (get_event e) w next ≡ next (store now e (answered (get_event e)) w)
  unfolding after_event
  after_handled e w next = elim (Result-cases (get_event e)) [
    | inl (c, q) ↦ rw q refl
    | inr (x, q) ↦ rw q (rw (handled e x q) refl)
  ]

  abbrev pub behind : List ℕ → Market → Market
  behind es m = with_category m (looked_up get_event es m.event_ticker m.category)

  behind_store :
      (e : ℕ) (es : List ℕ) (m : Market)
      → behind es (fill_category e (answered (get_event e)) m) ≡ behind (e ∷ es) m
  behind_store e es m =
      ap (behind es) (fill_category_lem e (answered (get_event e)) m)
      ∙ ap (with_category m) (looked_up_step get_event e es m.event_ticker m.category)

  pub look_up_each_markets :
      (es : List ℕ) (w : Enriched)
      → ((look_up_each get_event now es w).0 ≡ ok tt)
        × ((look_up_each get_event now es w).1.markets ≡ map (behind es) w.markets)
  unfolding look_up_each store
  look_up_each_markets [] w = (
    refl,
    sym (
        map_same (behind []) w.markets
          (λ m. ap (with_category m) (looked_up_none get_event m.event_ticker m.category))),
  )
  look_up_each_markets (e ∷ es) w =
      let (done, rest) = look_up_each_markets es (store now e (answered (get_event e)) w) in
      rw (after_handled e w (look_up_each get_event now es)) (
        done,
        rest
            ∙ map-map (behind es) (fill_category e (answered (get_event e))) (behind (e ∷ es))
                w.markets (behind_store e es),
      )
