-- ===== src/Api/Auth.antt =====
-- kalshi_agent/api/auth.py. A header is a list of code points; `lower` is `str.lower`.
pub mod Tokens
use kalshi_agent.Base.{
  ℕ, Bool, true, false, not, ◌&&◌, ◌||◌, Option, none, some, List, [], ◌∷◌, if◌then◌else◌,
}
use kalshi_agent.Texts.{Text, is_empty, strip, split_once, same_text, is_ascii}

-- "bearer"
abbrev pub bearer_word : Text
bearer_word = 98 ∷ 101 ∷ 97 ∷ 114 ∷ 101 ∷ 114 ∷ []

abbrev pub from_parts : (Text → Text) → List Text → Option Text
unfolding same_text strip
from_parts lower (scheme ∷ token ∷ []) =
    if same_text (lower scheme) bearer_word then some (strip token) else none
from_parts lower _ = none

-- `_bearer`
unfoldable pub bearer : (Text → Text) → Option Text → Option Text
unfolding split_once
bearer lower none = none
bearer lower (some authorization) =
    if is_empty authorization then none else from_parts lower (split_once authorization)

-- The hosts "127.0.0.1", "::1" and "localhost".
abbrev pub local_hosts : List Text
local_hosts =
    (49 ∷ 50 ∷ 55 ∷ 46 ∷ 48 ∷ 46 ∷ 48 ∷ 46 ∷ 49 ∷ [])
    ∷ (58 ∷ 58 ∷ 49 ∷ [])
    ∷ (108 ∷ 111 ∷ 99 ∷ 97 ∷ 108 ∷ 104 ∷ 111 ∷ 115 ∷ 116 ∷ [])
    ∷ []

abbrev pub text_in : Text → List Text → Bool
unfolding same_text
text_in t [] = false
text_in t (u ∷ us) = same_text t u || text_in t us

-- What the checks read of a request: the host of the client, if it is known, and the header.
pub record Request : Type 0 where
  pub client : Option Text
  pub authorization : Option Text

-- `_is_localhost`
unfoldable pub is_localhost : Request → Bool
unfolding text_in same_text
is_localhost r = elim r.client [ none ↦ false | some host ↦ text_in host local_hosts ]

-- How a dependency ends: it lets the request through, answers 401, or raises a TypeError.
pub data Verdict : Type 0 where
  passes unauthorized type_error : Verdict

-- `hmac.compare_digest` of two strings, which have to be ASCII.
unfoldable pub compare_digest : Text → Text → Verdict
unfolding same_text is_ascii
compare_digest a b =
    if not (is_ascii a && is_ascii b)
    then type_error
    else if same_text a b
    then passes
    else unauthorized

unfoldable pub check_token : Text → Option Text → Verdict
unfolding compare_digest
check_token expected none = unauthorized
check_token expected (some token) = compare_digest token expected

module _ (lower : Text → Text) (expected_token : Text) (r : Request) where
  unfoldable pub require_control_auth : Verdict
  unfolding check_token bearer
  require_control_auth = check_token expected_token (bearer lower r.authorization)

  unfoldable pub require_observer_auth : Verdict
  unfolding check_token bearer is_localhost
  require_observer_auth =
      if is_localhost r then passes else check_token expected_token (bearer lower r.authorization)
