-- ===== src/Client/Paths/Signed.antt =====
-- The path that kalshi_agent/kalshi/client.py signs.
use kalshi_agent.Base.{
  ◌≡◌, ◌∙◌, refl, sym, ap, append_assoc, true, false, Bool-cases, inl, inr, [], ◌∷◌, ◌++◌, All,
  arith, ◌==◌,
}
use kalshi_agent.Texts.{Text}
use kalshi_agent.Client.Paths.{api_prefix, api_root, starts_with, before_query, api_path}

-- No question mark.
abbrev pub HasNoQuery : Text → Type 0
HasNoQuery cs = All (λ c. (c == 63) ≡ false) cs

before_query-HasNoQuery : (cs : Text) → HasNoQuery (before_query cs)
unfolding before_query
before_query-HasNoQuery [] = tt
before_query-HasNoQuery (c ∷ cs) = elim (Bool-cases (c == 63)) [
  | inl q ↦ rw q tt
  | inr q ↦ rw q (q, before_query-HasNoQuery cs)
]

before_query_plain : (cs : Text) → HasNoQuery cs → before_query cs ≡ cs
unfolding before_query
before_query_plain [] tt = refl
before_query_plain (c ∷ cs) (h, hs) = rw (h, before_query_plain cs hs) refl

before_query-append :
    (xs ys : Text) → HasNoQuery xs → before_query (xs ++ ys) ≡ xs ++ before_query ys
unfolding before_query
before_query-append [] ys tt = refl
before_query-append (x ∷ xs) ys (h, hs) = rw (h, before_query-append xs ys hs) refl

-- The prefix of a text stays in front of its query, if it has no question mark itself.
starts_with-before_query :
    (p cs : Text) → HasNoQuery p → starts_with p cs ≡ true → starts_with p (before_query cs) ≡ true
unfolding starts_with before_query
starts_with-before_query [] cs h s = refl
starts_with-before_query (p ∷ ps) [] h s = absurd (ground arith)
starts_with-before_query (p ∷ ps) (c ∷ cs) (h, hs) s = elim (Bool-cases (p == c)) [
  | inl q ↦
      let plain : (c == 63) ≡ false = ground arith in
      rw (plain, q) (starts_with-before_query ps cs hs (ground arith))
  | inr q ↦ absurd (ground arith)
]

root-HasNoQuery : HasNoQuery api_root
root-HasNoQuery = (
  refl,
  (
    refl,
    (refl, (refl, (refl, (refl, (refl, (refl, (refl, (refl, (refl, (refl, (refl, tt))))))))))),
  ),
)

prefix-HasNoQuery : HasNoQuery api_prefix
prefix-HasNoQuery =
    (refl, (refl, (refl, (refl, (refl, (refl, (refl, (refl, (refl, (refl, (refl, tt)))))))))))

api_path-HasNoQuery : (path : Text) → HasNoQuery (api_path path)
unfolding api_path
api_path-HasNoQuery path = elim (Bool-cases (starts_with api_prefix path)) [
  | inl q ↦ rw q (before_query-HasNoQuery path)
  | inr q ↦ rw q (before_query-HasNoQuery (api_root ++ path))
]

starts_with-root : (path : Text) → starts_with api_prefix (before_query (api_root ++ path)) ≡ true
unfolding starts_with before_query
starts_with-root path = refl

starts_with-api_path : (path : Text) → starts_with api_prefix (api_path path) ≡ true
unfolding api_path
starts_with-api_path path = elim (Bool-cases (starts_with api_prefix path)) [
  | inl q ↦ rw q (starts_with-before_query api_prefix path prefix-HasNoQuery q)
  | inr q ↦ rw q (starts_with-root path)
]

api_path_prefixed :
    (path : Text) → starts_with api_prefix path ≡ true → api_path path ≡ before_query path
unfolding api_path
api_path_prefixed path q = rw q refl

api_path_endpoint :
    (path : Text)
    → starts_with api_prefix path ≡ false
    → api_path path ≡ before_query (api_root ++ path)
unfolding api_path
api_path_endpoint path q = rw q refl

-- The signed path has no query and starts with `/trade-api/`; signing it again gives the same path;
-- and for an endpoint, whose path does not start so, it is the path of the URL, host and query left
-- out, where the base URL ends in `/trade-api/v2`.
api_path_lem :
    (path : Text)
    → HasNoQuery (api_path path)
      × (starts_with api_prefix (api_path path) ≡ true)
      × (api_path (api_path path) ≡ api_path path)
      × ((host : Text)
          → HasNoQuery host
          → starts_with api_prefix path ≡ false
          → before_query ((host ++ api_root) ++ path) ≡ host ++ api_path path)
api_path_lem path = (
  api_path-HasNoQuery path,
  starts_with-api_path path,
  api_path_prefixed (api_path path) (starts_with-api_path path)
      ∙ before_query_plain (api_path path) (api_path-HasNoQuery path),
  λ host plain q.
      ap before_query (append_assoc host api_root path)
      ∙ before_query-append host (api_root ++ path) plain
      ∙ ap (λ cs. host ++ cs) (sym (api_path_endpoint path q)),
)
