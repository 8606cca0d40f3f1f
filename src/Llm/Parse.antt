-- ===== src/Llm/Parse.antt =====
-- `_throttle` and `_parse_json` of kalshi_agent/llm/openrouter.py. Times are microseconds on the
-- monotonic clock. A text is a list of code points, and `loads` is `json.loads`, with none for a
-- JSONDecodeError.
pub mod Embedded
use kalshi_agent.Base.{
  ℕ, zero, suc, ◌+◌, ◌-◌, Bool, true, false, Option, none, some, List, [], ◌∷◌, ltb, leb, ◌==◌,
  if◌then◌else◌,
}
use kalshi_agent.Result.{Result, ok, err, llm_error}
use kalshi_agent.Texts.{Text}

-- How long `_throttle` sleeps.
unfoldable pub throttle_wait : ℕ → ℕ → ℕ → ℕ
throttle_wait min_interval last_request now = min_interval - (now - last_request)

-- `_throttle`: `_last_request_ts` behind it, where the clock shows `woken` behind the sleep.
unfoldable pub throttle : ℕ → ℕ → ℕ → ℕ
throttle min_interval last_request woken = if min_interval == 0 then last_request else woken

abbrev one_up : Option ℕ → Option ℕ
one_up none = none
one_up (some i) = some (suc i)

abbrev pub first_of : Bool → Option ℕ → Option ℕ
first_of true _ = some 0
first_of false later = one_up later

abbrev pub last_of : Option ℕ → Bool → Option ℕ
last_of (some i) _ = some (suc i)
last_of none true = some 0
last_of none false = none

-- `content.find(c)`, with none for -1.
unfoldable pub find : ℕ → Text → Option ℕ
find c [] = none
find c (x ∷ xs) = first_of (x == c) (find c xs)

-- `content.rfind(c)`
unfoldable pub rfind : ℕ → Text → Option ℕ
rfind c [] = none
rfind c (x ∷ xs) = last_of (rfind c xs) (x == c)

abbrev pub drop : ℕ → Text → Text
drop zero xs = xs
drop (suc n) [] = []
drop (suc n) (x ∷ xs) = drop n xs

abbrev pub take : ℕ → Text → Text
take zero xs = []
take (suc n) [] = []
take (suc n) (x ∷ xs) = x ∷ take n xs

-- `content[start:end + 1]`
unfoldable pub slice : ℕ → ℕ → Text → Text
slice start end xs = take (suc end - start) (drop start xs)

module _ {A : Type 0} (loads : Text → Option A) where
  abbrev pub or_error : Option A → Result A
  or_error none = err llm_error
  or_error (some a) = ok a

  -- The object from the first `{` to the last `}`.
  abbrev pub between : Text → Option ℕ → Option ℕ → Result A
  unfolding slice
  between content (some start) (some end) =
      if ltb start end then or_error (loads (slice start end content)) else err llm_error
  between content _ _ = err llm_error

  abbrev pub or_embedded : Text → Option A → Result A
  unfolding slice find rfind
  or_embedded content (some a) = ok a
  or_embedded content none = between content (find 123 content) (rfind 125 content)

  -- `_parse_json`
  unfoldable pub parse_json : Text → Result A
  unfolding slice find rfind
  parse_json content = or_embedded content (loads content)
