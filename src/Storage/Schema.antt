-- ===== src/Storage/Schema.antt =====
-- `init_db` of kalshi_agent/storage/db.py: the table of schema versions.
use kalshi_agent.Base.{ℕ, ◌≡◌, refl, List, [], ◌∷◌}

abbrev pub schema_version : ℕ
schema_version = 1

-- A version is recorded only where there is none.
unfoldable pub init_db : List ℕ → List ℕ
init_db [] = schema_version ∷ []
init_db (v ∷ vs) = v ∷ vs

-- A start with a database that has been set up leaves the table as it is.
init_db_twice : (rows : List ℕ) → init_db (init_db rows) ≡ init_db rows
unfolding init_db
init_db_twice [] = refl
init_db_twice (v ∷ vs) = refl
