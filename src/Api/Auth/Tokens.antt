-- ===== src/Api/Auth/Tokens.antt =====
-- What kalshi_agent/api/auth.py reads from a header, and which tokens it lets through.
use kalshi_agent.Base.{ℕ, ◌≡◌, refl, ap, true, false, Option, none, some, [], ◌∷◌, ◌++◌, All, arith}
use kalshi_agent.Texts.{
  Text, is_empty, is_space, lstrip, rstrip, strip, word, split_once, same_text, is_ascii,
}
use kalshi_agent.Api.Auth.{
  bearer_word, from_parts, bearer, Request, is_localhost, passes, compare_digest, check_token,
  require_control_auth, require_observer_auth,
}

abbrev pub IsSpaces : Text → Type 0
IsSpaces cs = All (λ c. is_space c ≡ true) cs

abbrev pub IsWord : Text → Type 0
IsWord cs = All (λ c. is_space c ≡ false) cs

same_text_refl : (cs : Text) → same_text cs cs ≡ true
unfolding same_text
same_text_refl [] = refl
same_text_refl (c ∷ cs) = rw (same_text_refl cs) (ground arith)

same_text_eq : (xs ys : Text) → same_text xs ys ≡ true → xs ≡ ys
unfolding same_text
same_text_eq [] [] h = refl
same_text_eq [] (y ∷ ys) h = absurd (ground arith)
same_text_eq (x ∷ xs) [] h = absurd (ground arith)
same_text_eq (x ∷ xs) (y ∷ ys) h = ground (arith, same_text_eq xs ys)

lstrip_spaces : (pad cs : Text) → IsSpaces pad → lstrip (pad ++ cs) ≡ lstrip cs
unfolding lstrip
lstrip_spaces [] cs tt = refl
lstrip_spaces (c ∷ pad) cs (p, ps) = rw p (lstrip_spaces pad cs ps)

rstrip_only_spaces : (pad : Text) → IsSpaces pad → rstrip pad ≡ []
unfolding rstrip
rstrip_only_spaces [] tt = refl
rstrip_only_spaces (c ∷ pad) (p, ps) = rw (rstrip_only_spaces pad ps, p) refl

rstrip_spaces : (cs pad : Text) → IsSpaces pad → rstrip (cs ++ pad) ≡ rstrip cs
unfolding rstrip
rstrip_spaces [] pad p = rstrip_only_spaces pad p
rstrip_spaces (c ∷ cs) pad p = rw (rstrip_spaces cs pad p) refl

word_lem :
    (w : Text) (c : ℕ) (rest : Text)
    → IsWord w
    → is_space c ≡ true
    → word (w ++ c ∷ rest) ≡ (w, c ∷ rest)
unfolding word
word_lem [] c rest tt s = rw s refl
word_lem (x ∷ w) c rest (p, ps) s = rw (word_lem w c rest ps s, p) refl

lstrip_word : (c : ℕ) (cs : Text) → is_space c ≡ false → lstrip (c ∷ cs) ≡ c ∷ cs
unfolding lstrip
lstrip_word c cs h = rw h refl

split_once_lem :
    (pad w : Text) (c s : ℕ) (gap : Text) (t : ℕ) (ts : Text)
    → IsSpaces pad
    → IsWord (c ∷ w)
    → IsSpaces (s ∷ gap)
    → is_space t ≡ false
    → split_once (pad ++ ((c ∷ w) ++ ((s ∷ gap) ++ (t ∷ ts)))) ≡ (c ∷ w) ∷ (t ∷ ts) ∷ []
unfolding split_once
split_once_lem pad w c s gap t ts p (q, qs) (r, rs) h =
    rw
      (
        lstrip_spaces pad ((c ∷ w) ++ ((s ∷ gap) ++ (t ∷ ts))) p,
        lstrip_word c (w ++ ((s ∷ gap) ++ (t ∷ ts))) q,
        word_lem (c ∷ w) s (gap ++ (t ∷ ts)) (q, qs) r,
        lstrip_spaces (s ∷ gap) (t ∷ ts) (r, rs),
        lstrip_word t ts h,
      )
      refl

is_empty-append : (xs : Text) (y : ℕ) (ys : Text) → is_empty (xs ++ (y ∷ ys)) ≡ false
is_empty-append [] y ys = refl
is_empty-append (x ∷ xs) y ys = refl

from_parts_lem :
    (lower : Text → Text) (scheme token : Text)
    → lower scheme ≡ bearer_word
    → from_parts lower (scheme ∷ token ∷ []) ≡ some (strip token)
unfolding same_text from_parts strip
from_parts_lem lower scheme token h = rw h refl

-- A header that consists of the scheme `bearer` in any case, white space and a token that has none
-- at its ends gives back the token, whatever white space stands around the two.
pub bearer_reads_token :
    (lower : Text → Text) (pad w : Text) (c s : ℕ) (gap : Text) (t : ℕ) (ts end : Text)
    → lower (c ∷ w) ≡ bearer_word
    → IsSpaces pad
    → IsWord (c ∷ w)
    → IsSpaces (s ∷ gap)
    → is_space t ≡ false
    → rstrip (t ∷ ts) ≡ t ∷ ts
    → IsSpaces end
    → bearer lower (some (pad ++ ((c ∷ w) ++ ((s ∷ gap) ++ ((t ∷ ts) ++ end))))) ≡ some (t ∷ ts)
unfolding bearer strip
bearer_reads_token lower pad w c s gap t ts end low p q r h e sp =
    rw
      (
        is_empty-append pad c (w ++ ((s ∷ gap) ++ ((t ∷ ts) ++ end))),
        split_once_lem pad w c s gap t (ts ++ end) p q r h,
        from_parts_lem lower (c ∷ w) (t ∷ (ts ++ end)) low,
        lstrip_word t (ts ++ end) h,
        rstrip_spaces (t ∷ ts) end sp,
      )
      (ap some e)

check_token_passes :
    (expected : Text) (o : Option Text) → check_token expected o ≡ passes → o ≡ some expected
unfolding check_token compare_digest
check_token_passes expected none h = absurd (ground arith)
check_token_passes expected (some token) h = ap some (same_text_eq token expected (ground arith))

check_token_accepts :
    (expected : Text) → is_ascii expected ≡ true → check_token expected (some expected) ≡ passes
unfolding check_token compare_digest
check_token_accepts expected h = rw (h, same_text_refl expected) refl

module _ (lower : Text → Text) (expected : Text) (r : Request) where
  -- A request that the control routes let through carries the expected token as its bearer token,
  -- from whatever host it comes; an observer route also lets one through that comes from localhost.
  -- A request that carries the token gets through both, if the token is ASCII.
  pub auth_needs_token :
      (require_control_auth lower expected r ≡ passes
        → bearer lower r.authorization ≡ some expected)
      × (require_observer_auth lower expected r ≡ passes
          → is_localhost r ≡ false
          → bearer lower r.authorization ≡ some expected)
      × (is_ascii expected ≡ true
          → bearer lower r.authorization ≡ some expected
          → (require_control_auth lower expected r ≡ passes)
            × (require_observer_auth lower expected r ≡ passes))
  unfolding require_control_auth require_observer_auth
  auth_needs_token = (
    λ h. check_token_passes expected _ h,
    λ h far. check_token_passes expected _ (rw far at h),
    λ ascii given.
        let accepted : check_token expected (bearer lower r.authorization) ≡ passes =
          rw given (check_token_accepts expected ascii) in
        (accepted, ground (arith, accepted)),
  )
