-- ===== src/Halt.antt =====
-- kalshi_agent/safety/halt_actions.py: the watch on the kill switch. A tick reads the switch and,
-- where it has just been engaged, the answer of `cancel_all_resting`; messages, payloads and the
-- Discord post are left out.
pub mod Edges
use kalshi_agent.Base.{
  ℕ, Bool, true, false, not, ◌&&◌, ◌||◌, Option, none, some, String, List, [], ◌∷◌, ◌++◌, map,
  update_where, if◌then◌else◌,
}
use text.Mathlib.Text.{◌==◌ as str_eq}
use kalshi_agent.Base.Int.{ℤ, pos, negsuc}
use kalshi_agent.Result.{Result, ok, err}
use kalshi_agent.Storage.{
  Db, Order, Event, info, warning, halt_actions_event, halt_lifted_event, add_event,
}
use kalshi_agent.KillSwitch.{Switch, is_engaged}

-- The statuses that an order which may still trade has.
abbrev pub is_live_order : Order → Bool
is_live_order o = str_eq o.status "pending" || str_eq o.status "resting" || str_eq o.status "open"

abbrev pub cancel_by_halt : Order → Order
cancel_by_halt o = record o { status = "cancelled_by_halt" }

-- `n`: what `cancel_all_resting` returned, or -1 where it raised.
abbrev pub cancelled_count : Result ℕ → ℤ
cancelled_count (ok n) = pos n
cancelled_count (err e) = negsuc 0

-- `_on_engaged`
unfoldable pub on_engaged : Result ℕ → Db → Db
on_engaged cancelled db =
    add_event (halt_actions_event (cancelled_count cancelled)) warning
      (record db { orders = update_where is_live_order cancel_by_halt db.orders })

-- `_on_disengaged`
unfoldable pub on_disengaged : Db → Db
on_disengaged db = add_event halt_lifted_event info db

-- `_last_state` and the database.
pub record Watch : Type 0 where
  pub last_state : Bool
  pub db : Db

-- `HaltMonitor.__init__`
abbrev pub start_watch : Switch → Db → Watch
start_watch kill db = record { last_state = is_engaged kill; db = db }

-- One round of `run`.
unfoldable pub tick : Switch → Result ℕ → Watch → Watch
tick kill cancelled w =
    let state = is_engaged kill in
    record {
      last_state = state;
      db =
          if state && not w.last_state
          then on_engaged cancelled w.db
          else if not state && w.last_state
          then on_disengaged w.db
          else w.db;
    }

-- `run`, on what its rounds read.
unfoldable pub run : List (Switch × Result ℕ) → Watch → Watch
run [] w = w
run ((kill, cancelled) ∷ rounds) w = run rounds (tick kill cancelled w)
