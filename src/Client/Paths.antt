-- ===== src/Client/Paths.antt =====
-- kalshi_agent/kalshi/client.py: what a request is made of: the path that is signed, the bucket that
-- it draws from, and the query parameters of the endpoints. Paths are lists of code points.
pub mod Signed
use kalshi_agent.Base.{
  ℕ, Bool, true, false, not, ◌||◌, Option, none, some, String, List, [], ◌∷◌, ◌++◌, ◌==◌,
  if◌then◌else◌,
}
use text.Mathlib.Text.{◌==◌ as str_eq}
use kalshi_agent.Texts.{Text}

-- "/trade-api/" and "/trade-api/v2"
abbrev pub api_prefix : Text
api_prefix = 47 ∷ 116 ∷ 114 ∷ 97 ∷ 100 ∷ 101 ∷ 45 ∷ 97 ∷ 112 ∷ 105 ∷ 47 ∷ []

abbrev pub api_root : Text
api_root = 47 ∷ 116 ∷ 114 ∷ 97 ∷ 100 ∷ 101 ∷ 45 ∷ 97 ∷ 112 ∷ 105 ∷ 47 ∷ 118 ∷ 50 ∷ []

-- `startswith`
unfoldable pub starts_with : Text → Text → Bool
starts_with [] cs = true
starts_with (p ∷ ps) [] = false
starts_with (p ∷ ps) (c ∷ cs) = let rest = starts_with ps cs in if p == c then rest else false

-- `split("?", 1)[0]`
unfoldable pub before_query : Text → Text
before_query [] = []
before_query (c ∷ cs) = let rest = before_query cs in if c == 63 then [] else c ∷ rest

-- `_api_path`
unfoldable pub api_path : Text → Text
unfolding starts_with before_query
api_path path =
    if starts_with api_prefix path then before_query path else before_query (api_root ++ path)

pub data BucketKind : Type 0 where
  read_bucket write_bucket : BucketKind

-- The bucket of `_request`; `upper` is `str.upper`.
unfoldable pub bucket_of : (String → String) → String → BucketKind
bucket_of upper method =
    if str_eq (upper method) "POST" || str_eq (upper method) "DELETE" || str_eq (upper method) "PUT"
    then write_bucket
    else read_bucket

pub data Param : Type 0 where
  str : String → Param
  int : ℕ → Param

-- A parameter that is set if its value is neither missing nor empty.
abbrev pub if_given : String → Option String → List (String × Param)
if_given name none = []
if_given name (some v) = if str_eq v "" then [] else (name, str v) ∷ []

abbrev pub if_number : String → Option ℕ → List (String × Param)
if_number name none = []
if_number name (some n) = (name, int n) ∷ []

unfoldable pub list_markets_params :
    String → ℕ → Option String → Option String → List (String × Param)
list_markets_params status limit cursor event_ticker =
    ("status", str status)
    ∷ ("limit", int limit)
    ∷ (if_given "cursor" cursor ++ if_given "event_ticker" event_ticker)

unfoldable pub list_orders_params : Option String → List (String × Param)
list_orders_params status = if_given "status" status

unfoldable pub list_fills_params :
    Option String → Option ℕ → Option ℕ → ℕ → Option String → List (String × Param)
list_fills_params ticker min_ts max_ts limit cursor =
    ("limit", int limit)
    ∷ (if_given "ticker" ticker
        ++ (if_number "min_ts" min_ts ++ (if_number "max_ts" max_ts ++ if_given "cursor" cursor)))
