-- ===== src/Texts.antt =====
-- The string methods that kalshi_agent/api and kalshi_agent/kalshi use, on lists of code points.
use kalshi_agent.Base.{ℕ, Bool, true, false, ◌&&◌, ◌||◌, List, [], ◌∷◌, leb, ◌==◌, if◌then◌else◌}

abbrev pub Text : Type 0
Text = List ℕ

abbrev pub is_empty : Text → Bool
is_empty [] = true
is_empty (_ ∷ _) = false

abbrev between : ℕ → ℕ → ℕ → Bool
between a b c = leb a c && leb c b

-- `str.isspace` of one character.
unfoldable pub is_space : ℕ → Bool
is_space c =
    between 9 13 c
    || between 28 32 c
    || c == 133
    || c == 160
    || c == 5760
    || between 8192 8202 c
    || between 8232 8233 c
    || c == 8239
    || c == 8287
    || c == 12288

-- `lstrip`
unfoldable pub lstrip : Text → Text
lstrip [] = []
lstrip (c ∷ cs) = let rest = lstrip cs in if is_space c then rest else c ∷ cs

-- `rstrip`
unfoldable pub rstrip : Text → Text
rstrip [] = []
rstrip (c ∷ cs) = let rest = rstrip cs in if is_empty rest && is_space c then [] else c ∷ rest

-- `strip`
unfoldable pub strip : Text → Text
unfolding lstrip rstrip
strip cs = rstrip (lstrip cs)

-- The text up to the first space, and from it on.
unfoldable pub word : Text → Text × Text
word [] = ([], [])
word (c ∷ cs) = let (w, rest) = word cs in if is_space c then ([], c ∷ cs) else (c ∷ w, rest)

abbrev parts : Text × Text → List Text
unfolding lstrip
parts ([], _) = []
parts (c ∷ w, rest) =
    let more = lstrip rest in if is_empty more then (c ∷ w) ∷ [] else (c ∷ w) ∷ more ∷ []

-- `split(None, 1)`: the first word, and what follows it and the spaces behind it, where there is
-- anything.
unfoldable pub split_once : Text → List Text
unfolding lstrip word
split_once cs = parts (word (lstrip cs))

-- Equality of two texts.
unfoldable pub same_text : Text → Text → Bool
same_text [] [] = true
same_text (a ∷ xs) (b ∷ ys) = let rest = same_text xs ys in a == b && rest
same_text _ _ = false

-- Every character is ASCII.
unfoldable pub is_ascii : Text → Bool
is_ascii [] = true
is_ascii (c ∷ cs) = let rest = is_ascii cs in leb c 127 && rest
