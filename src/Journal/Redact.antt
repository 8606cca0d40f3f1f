-- ===== src/Journal/Redact.antt =====
-- `_redact` of kalshi_agent/journal/logger.py. A log record is a dictionary of values, whose keys are
-- texts. What is neither a dictionary, a list nor a text is an `other` with the values that it
-- holds: a tuple or a set has its elements, a number none. `lower` is `str.lower`, and `sub` replaces
-- the webhook URLs in a text.
pub mod Secrets
use kalshi_agent.Base.{ℕ, Bool, true, false, ◌||◌, String, List, [], ◌∷◌, if◌then◌else◌}
use text.Mathlib.Text.{◌==◌ as str_eq}

mutual
  pub data Value : Type 0 where
    dict : Fields → Value
    list : Items → Value
    str : String → Value
    other : Items → Value

  pub data Items : Type 0 where
    nil : Items
    cons : Value → Items → Items

  pub data Fields : Type 0 where
    end : Fields
    field : String → Value → Fields → Fields

-- `_SECRET_KEYS`
abbrev pub secret_keys : List String
secret_keys =
    "authorization" ∷ "api_key" ∷ "api_key_id" ∷ "private_key" ∷ "private_key_path" ∷ "webhook_url"
    ∷ "discord_webhook_url" ∷ "control_bearer_token" ∷ "bearer_token" ∷ "kalshi-access-key"
    ∷ "kalshi-access-signature" ∷ []

abbrev pub key_in : String → List String → Bool
key_in k [] = false
key_in k (s ∷ ss) = str_eq k s || key_in k ss

-- `k.lower() in _SECRET_KEYS`
unfoldable pub is_secret : (String → String) → String → Bool
is_secret lower k = key_in (lower k) secret_keys

abbrev pub redacted : Value
redacted = str "***REDACTED***"

unfoldable mutual
  pub scrub : (String → String) → (String → String) → Value → Value
  scrub lower sub (dict fs) = dict (scrub_fields lower sub fs)
  scrub lower sub (list xs) = list (scrub_items lower sub xs)
  scrub lower sub (str s) = str (sub s)
  scrub lower sub (other xs) = other xs

  pub scrub_items : (String → String) → (String → String) → Items → Items
  scrub_items lower sub nil = nil
  scrub_items lower sub (cons x xs) = cons (scrub lower sub x) (scrub_items lower sub xs)

  pub scrub_fields : (String → String) → (String → String) → Fields → Fields
  scrub_fields lower sub end = end
  scrub_fields lower sub (field k v fs) =
      let clean = scrub lower sub v in
      field k (if is_secret lower k then redacted else clean) (scrub_fields lower sub fs)

-- `_redact`
unfoldable pub redact : (String → String) → (String → String) → Fields → Fields
unfolding scrub
redact lower sub fs = scrub_fields lower sub fs
