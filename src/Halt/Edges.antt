-- ===== src/Halt/Edges.antt =====
-- When kalshi_agent/safety/halt_actions.py acts, and on which orders.
use kalshi_agent.Base.{
  ℕ, ◌+◌, ◌≡◌, refl, Bool, true, false, not, ◌&&◌, some, List, [], ◌∷◌, length, length-append, any,
  update_where, arith, Bool-cases, inl, inr, if◌then◌else◌,
}
use kalshi_agent.Result.{Result}
use kalshi_agent.Storage.{Db, Order}
use kalshi_agent.KillSwitch.{Switch, HaltFile, is_engaged}
use kalshi_agent.Halt.{is_live_order, cancel_by_halt, on_engaged, on_disengaged, Watch, tick, run}

no_live_left :
    (os : List Order) → any is_live_order (update_where is_live_order cancel_by_halt os) ≡ false
no_live_left [] = refl
no_live_left (o ∷ os) = elim (Bool-cases (is_live_order o)) [
  | inl q ↦ rw q (no_live_left os)
  | inr q ↦ rw q (rw q (no_live_left os))
]

-- How often the switch changes from off to engaged, and how often from engaged to off.
abbrev pub rises : Bool → List (Switch × Result ℕ) → ℕ
rises last [] = 0
rises last ((kill, _) ∷ rounds) =
    (if is_engaged kill && not last then 1 else 0) + rises (is_engaged kill) rounds

abbrev pub falls : Bool → List (Switch × Result ℕ) → ℕ
falls last [] = 0
falls last ((kill, _) ∷ rounds) =
    (if not (is_engaged kill) && last then 1 else 0) + falls (is_engaged kill) rounds

engaged_adds_one : (c : Result ℕ) (db : Db) → length (on_engaged c db).events ≡ length db.events + 1
unfolding on_engaged
engaged_adds_one c db = length-append db.events _

disengaged_adds_one : (db : Db) → length (on_disengaged db).events ≡ length db.events + 1
unfolding on_disengaged
disengaged_adds_one db = length-append db.events _

tick_events :
    (kill : Switch) (c : Result ℕ) (w : Watch)
    → length (tick kill c w).db.events
      ≡ length w.db.events
        + (if is_engaged kill && not w.last_state then 1 else 0)
        + (if not (is_engaged kill) && w.last_state then 1 else 0)
unfolding tick
tick_events kill c w = ground (arith, engaged_adds_one c w.db, disengaged_adds_one w.db)

-- Whatever the rounds read, one event is added for each time that the switch is engaged or
-- disengaged, and none while it stays as it is.
one_event_per_edge :
    (rounds : List (Switch × Result ℕ)) (w : Watch)
    → length (run rounds w).db.events
      ≡ length w.db.events + rises w.last_state rounds + falls w.last_state rounds
unfolding run
one_event_per_edge [] w = omega arith
one_event_per_edge ((kill, c) ∷ rounds) w =
    let last : (tick kill c w).last_state ≡ is_engaged kill = unfold tick in refl in
    rw (one_event_per_edge rounds (tick kill c w), last, tick_events kill c w) (omega arith)

-- Once the switch has been engaged and a round has seen it, no order of the book is pending,
-- resting or open, whether or not Kalshi has cancelled the orders; no order is added or removed.
pub engaged_leaves_no_live :
    (f : HaltFile) (c : Result ℕ) (w : Watch)
    → w.last_state ≡ false
    → let w' = tick (some f) c w in
      (any is_live_order w'.db.orders ≡ false)
      × (w'.db.orders ≡ update_where is_live_order cancel_by_halt w.db.orders)
      × (w'.last_state ≡ true)
unfolding tick on_engaged
engaged_leaves_no_live f c w off = ground (arith, no_live_left w.db.orders)

-- A round that goes on seeing the switch engaged leaves the watch as it is, whatever orders the
-- book has by then.
held_halt_is_idle :
    (f : HaltFile) (c : Result ℕ) (w : Watch) → w.last_state ≡ true → tick (some f) c w ≡ w
unfolding tick
held_halt_is_idle f c w on = ground arith
