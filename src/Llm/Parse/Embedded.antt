-- ===== src/Llm/Parse/Embedded.antt =====
-- The object that `_parse_json` of kalshi_agent/llm/openrouter.py finds in a text.
use kalshi_agent.Base.{
  ℕ, suc, ◌+◌, ◌-◌, ◌≤◌, ◌<◌, ◌≡◌, ◌∙◌, refl, sym, ap, true, false, Option, none, some, [], ◌∷◌,
  ◌++◌, All, length, length-append, append_assoc, arith, ltb, ◌==◌,
}
use kalshi_agent.Result.{ok}
use kalshi_agent.Texts.{Text}
use kalshi_agent.Llm.Parse.{
  throttle_wait, throttle, find, rfind, drop, take, slice, or_error, between, parse_json,
}

-- Two requests are at least the interval apart, if the sleep lasts as long as it is asked to.
pub throttle_keeps_interval :
    (min_interval last_request now woken : ℕ)
    → last_request ≤ now
    → now + throttle_wait min_interval last_request now ≤ woken
    → 0 < min_interval
    → (throttle min_interval last_request woken ≡ woken) × (last_request + min_interval ≤ woken)
unfolding throttle throttle_wait
throttle_keeps_interval min_interval last_request now woken past slept on = ground arith

abbrev pub Lacks : ℕ → Text → Type 0
Lacks c cs = All (λ x. (x == c) ≡ false) cs

find_behind :
    (c : ℕ) (pre rest : Text) → Lacks c pre → find c (pre ++ (c ∷ rest)) ≡ some (length pre)
unfolding find
find_behind c [] rest tt = let same : (c == c) ≡ true = ground arith in rw same refl
find_behind c (x ∷ pre) rest (h, hs) = rw (h, find_behind c pre rest hs) refl

rfind-Lacks : (c : ℕ) (post : Text) → Lacks c post → rfind c post ≡ none
unfolding rfind
rfind-Lacks c [] tt = refl
rfind-Lacks c (x ∷ post) (h, hs) = rw (rfind-Lacks c post hs, h) refl

rfind_before :
    (c : ℕ) (pre post : Text) → Lacks c post → rfind c (pre ++ (c ∷ post)) ≡ some (length pre)
unfolding rfind
rfind_before c [] post h =
    let same : (c == c) ≡ true = ground arith in rw (rfind-Lacks c post h, same) refl
rfind_before c (x ∷ pre) post h = rw (rfind_before c pre post h) refl

drop-length : (pre rest : Text) → drop (length pre) (pre ++ rest) ≡ rest
drop-length [] rest = refl
drop-length (x ∷ pre) rest = drop-length pre rest

take-length : (xs rest : Text) → take (length xs) (xs ++ rest) ≡ xs
take-length [] rest = refl
take-length (x ∷ xs) rest = rw (take-length xs rest) refl

abbrev pub object_of : Text → Text
object_of inside = 123 ∷ (inside ++ (125 ∷ []))

rfind_embedded :
    (pre inside post : Text)
    → Lacks 125 post
    → rfind 125 (pre ++ (object_of inside ++ post)) ≡ some (length pre + suc (length inside))
rfind_embedded pre inside post k =
    ap (λ cs. rfind 125 (pre ++ (123 ∷ cs))) (append_assoc inside (125 ∷ []) post)
    ∙ ap (rfind 125) (sym (append_assoc pre (123 ∷ inside) (125 ∷ post)))
    ∙ rfind_before 125 (pre ++ (123 ∷ inside)) post k
    ∙ ap some (length-append pre (123 ∷ inside))

slice_embedded :
    (pre inside post : Text)
    → slice (length pre) (length pre + suc (length inside)) (pre ++ (object_of inside ++ post))
      ≡ object_of inside
unfolding slice
slice_embedded pre inside post =
    let size : suc (length pre + suc (length inside)) - length pre ≡ length (object_of inside) =
      omega (arith, length-append inside (125 ∷ [])) in
    ap (take (suc (length pre + suc (length inside)) - length pre))
      (drop-length pre (object_of inside ++ post))
    ∙ ap (λ n. take n (object_of inside ++ post)) size
    ∙ take-length (object_of inside) post

module _ {A : Type 0} (loads : Text → Option A) where
  -- An object in braces that stands in prose is parsed, whatever stands inside it, if the prose
  -- before it has no opening and the prose behind it no closing brace and the whole is no JSON; a
  -- text that is JSON is parsed as a whole.
  pub embedded_object_parsed :
      (pre inside post : Text)
      → Lacks 123 pre
      → Lacks 125 post
      → let object = object_of inside in
        let content = pre ++ (object ++ post) in
        (loads content ≡ none → parse_json loads content ≡ or_error loads (loads object))
        × ((a : A) → loads content ≡ some a → parse_json loads content ≡ ok a)
  unfolding parse_json between
  embedded_object_parsed pre inside post h k = (
    λ q.
        let opens = find_behind 123 pre ((inside ++ (125 ∷ [])) ++ post) h in
        let closes = rfind_embedded pre inside post k in
        let later : ltb (length pre) (length pre + suc (length inside)) ≡ true = ground arith in
        rw q (rw (opens, closes, later, slice_embedded pre inside post) refl),
    λ a q. rw q refl,
  )
