-- ===== src/KillSwitch.antt =====
-- kalshi_agent/safety/kill_switch.py. The HALT file is the state: `none` where it is absent, and
-- otherwise what stands in it. Payloads are left out; the tmp-then-rename write is one step.
use kalshi_agent.Base.{
  ℕ, ◌≡◌, refl, Bool, true, false, Option, none, some, String, is_some, if◌then◌else◌,
}
use kalshi_agent.Decimal.{Decimal}

-- The reasons that the program gives, and any text that an operator gives.
pub data HaltReason : Type 0 where
  runaway_order_rate : HaltReason
  daily_loss_breach post_hoc_exposure_breach post_hoc_daily_loss : Decimal → HaltReason
  error_spike : ℕ → ℕ → HaltReason
  ws_silent : ℕ → HaltReason
  manual : HaltReason
  operator : String → HaltReason

pub data Source : Type 0 where
  risk_monitor ws_watchdog http by_hand : Source

pub record Body : Type 0 where
  pub reason : HaltReason
  pub source : Source
  pub timestamp : ℕ

-- A file that is no JSON, such as one made by `touch`, is `unreadable`.
pub data HaltFile : Type 0 where
  written : Body → HaltFile
  unreadable : HaltFile

abbrev pub Switch : Type 0
Switch = Option HaltFile

abbrev pub is_engaged : Switch → Bool
is_engaged = is_some

-- `reason()`, without the other keys of the body.
unfoldable pub reason_of : Switch → Option HaltReason
reason_of none = none
reason_of (some (written b)) = some b.reason
reason_of (some unreadable) = some manual

unfoldable pub engage : HaltReason → Source → ℕ → Switch → Switch
engage reason source now none =
    some (written (record { reason = reason; source = source; timestamp = now }))
engage reason source now (some f) = some f

unfoldable pub disengage : Switch → Bool × Switch
disengage none = (false, none)
disengage (some f) = (true, none)

-- An engaged switch keeps the reason that it was engaged for, whatever engages it again; a
-- disengaged one takes the new reason; and after a disengagement the switch is off.
engage_first_reason :
    (r : HaltReason) (src : Source) (now : ℕ) (s : Switch)
    → (is_engaged (engage r src now s) ≡ true)
      × (reason_of (engage r src now s) ≡ (if is_engaged s then reason_of s else some r))
      × (disengage (engage r src now s) ≡ (true, none))
unfolding engage disengage reason_of
engage_first_reason r src now none = (refl, refl, refl)
engage_first_reason r src now (some f) = (refl, refl, refl)
