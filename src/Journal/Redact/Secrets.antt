-- ===== src/Journal/Redact/Secrets.antt =====
-- What the redaction of kalshi_agent/journal/logger.py leaves in a log record.
use kalshi_agent.Base.{◌≡◌, refl, ap, true, false, Bool-cases, inl, inr, String, if◌then◌else◌}
use kalshi_agent.Journal.Redact.{
  Value, Items, Fields, dict, list, str, other, nil, cons, end, field, is_secret, redacted, scrub,
  scrub_items, scrub_fields, redact,
}

-- In nested dictionaries and lists, no secret key has another value than the mark, and every text
-- that is a value has been through the replacement of webhook URLs.
mutual
  pub Clean : (String → String) → (String → String) → Value → Type 0
  Clean lower sub (dict fs) = CleanFields lower sub fs
  Clean lower sub (list xs) = CleanItems lower sub xs
  Clean lower sub (str s) = (t : String) × (s ≡ sub t)
  Clean lower sub (other xs) = Unit

  pub CleanItems : (String → String) → (String → String) → Items → Type 0
  CleanItems lower sub nil = Unit
  CleanItems lower sub (cons x xs) = Clean lower sub x × CleanItems lower sub xs

  pub CleanFields : (String → String) → (String → String) → Fields → Type 0
  CleanFields lower sub end = Unit
  CleanFields lower sub (field k v fs) =
      (is_secret lower k ≡ true → v ≡ redacted)
      × (is_secret lower k ≡ false → Clean lower sub v)
      × CleanFields lower sub fs

abbrev behind : Items → Items → Items
behind nil ys = ys
behind (cons x xs) ys = cons x (behind xs ys)

-- What the other objects hold that stand in nested dictionaries and lists, but not under a secret
-- key.
mutual
  pub held : (String → String) → Value → Items
  held lower (dict fs) = held_fields lower fs
  held lower (list xs) = held_items lower xs
  held lower (str s) = nil
  held lower (other xs) = xs

  pub held_items : (String → String) → Items → Items
  held_items lower nil = nil
  held_items lower (cons x xs) = behind (held lower x) (held_items lower xs)

  pub held_fields : (String → String) → Fields → Items
  held_fields lower end = nil
  held_fields lower (field k v fs) =
      let here = held lower v in
      behind (if is_secret lower k then nil else here) (held_fields lower fs)

module _ (lower sub : String → String) where
  mutual
    unfolding scrub Clean

    scrub-Clean : (v : Value) → Clean lower sub (scrub lower sub v)
    scrub-Clean (dict fs) = scrub_fields-CleanFields fs
    scrub-Clean (list xs) = scrub_items-CleanItems xs
    scrub-Clean (str s) = (s, refl)
    scrub-Clean (other xs) = tt

    scrub_items-CleanItems : (xs : Items) → CleanItems lower sub (scrub_items lower sub xs)
    scrub_items-CleanItems nil = tt
    scrub_items-CleanItems (cons x xs) = (scrub-Clean x, scrub_items-CleanItems xs)

    scrub_fields-CleanFields : (fs : Fields) → CleanFields lower sub (scrub_fields lower sub fs)
    scrub_fields-CleanFields end = tt
    scrub_fields-CleanFields (field k v fs) =
        let clean = scrub-Clean v in (λ h. rw h refl, λ h. rw h clean, scrub_fields-CleanFields fs)

  mutual
    unfolding scrub

    scrub_again :
        ((s : String) → sub (sub s) ≡ sub s)
        → (v : Value) → scrub lower sub (scrub lower sub v) ≡ scrub lower sub v
    scrub_again idem (dict fs) = ap dict (scrub_fields_again idem fs)
    scrub_again idem (list xs) = ap list (scrub_items_again idem xs)
    scrub_again idem (str s) = ap str (idem s)
    scrub_again idem (other xs) = refl

    scrub_items_again :
        ((s : String) → sub (sub s) ≡ sub s)
        → (xs : Items) → scrub_items lower sub (scrub_items lower sub xs) ≡ scrub_items lower sub xs
    scrub_items_again idem nil = refl
    scrub_items_again idem (cons x xs) = rw (scrub_again idem x, scrub_items_again idem xs) refl

    scrub_fields_again :
        ((s : String) → sub (sub s) ≡ sub s)
        → (fs : Fields)
        → scrub_fields lower sub (scrub_fields lower sub fs) ≡ scrub_fields lower sub fs
    scrub_fields_again idem end = refl
    scrub_fields_again idem (field k v fs) = elim (Bool-cases (is_secret lower k)) [
      | inl q ↦ rw (q, scrub_fields_again idem fs) refl
      | inr q ↦ rw (q, scrub_again idem v, scrub_fields_again idem fs) refl
    ]

  mutual
    unfolding scrub held

    held-scrub : (v : Value) → held lower (scrub lower sub v) ≡ held lower v
    held-scrub (dict fs) = held_fields-scrub_fields fs
    held-scrub (list xs) = held_items-scrub_items xs
    held-scrub (str s) = refl
    held-scrub (other xs) = refl

    held_items-scrub_items :
        (xs : Items) → held_items lower (scrub_items lower sub xs) ≡ held_items lower xs
    held_items-scrub_items nil = refl
    held_items-scrub_items (cons x xs) = rw (held-scrub x, held_items-scrub_items xs) refl

    held_fields-scrub_fields :
        (fs : Fields) → held_fields lower (scrub_fields lower sub fs) ≡ held_fields lower fs
    held_fields-scrub_fields end = refl
    held_fields-scrub_fields (field k v fs) = elim (Bool-cases (is_secret lower k)) [
      | inl q ↦ rw (q, held_fields-scrub_fields fs) refl
      | inr q ↦ rw (q, held-scrub v, held_fields-scrub_fields fs) refl
    ]

  -- In the nested dictionaries and lists of a redacted record, no secret key has another value than
  -- the mark, and every text that is a value has been through the replacement of webhook URLs. What
  -- other objects hold, a tuple for one, stays as it is unless it stands under a secret key. If
  -- replacing webhook URLs twice is replacing them once, so is the redaction.
  pub redact-Clean :
      (fs : Fields)
      → CleanFields lower sub (redact lower sub fs)
        × (held_fields lower (redact lower sub fs) ≡ held_fields lower fs)
        × (((s : String) → sub (sub s) ≡ sub s)
            → redact lower sub (redact lower sub fs) ≡ redact lower sub fs)
  unfolding redact
  redact-Clean fs =
      (scrub_fields-CleanFields fs, held_fields-scrub_fields fs, λ idem. scrub_fields_again idem fs)
