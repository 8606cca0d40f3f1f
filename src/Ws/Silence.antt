-- ===== src/Ws/Silence.antt =====
-- When the watchdog of kalshi_agent/kalshi/ws.py trips.
use kalshi_agent.Base.{
  ℕ, suc, ◌-◌, ◌≡◌, refl, ap, Bool, true, false, ◌&&◌, none, List, [], ◌∷◌, All, ltb, arith,
}
use kalshi_agent.KillSwitch.{Switch, is_engaged, engage}
use kalshi_agent.Ws.{
  Socket, opened, message, subscribed, closed, failed, happen, seconds_since_last_message, arm,
  guard, round, Action, happens, looks, act, act_all,
}

-- A round engages a switch that is off exactly if the socket is connected and has been silent for
-- longer than the timeout, and it leaves an engaged switch as it is.
round_trips :
    (timeout now utc : ℕ) (s : Socket) (armed : Bool)
    → (is_engaged (round timeout now utc s (armed, none)).1
        ≡ (s.connected && ltb timeout (now - s.last_message_at)))
      × ((kill : Switch)
          → is_engaged kill ≡ true
          → (round timeout now utc s (armed, kill)).1 ≡ kill)
unfolding round arm guard seconds_since_last_message engage
round_trips timeout now utc s armed = (ground arith, λ kill e. ground arith)

abbrev pub NeverOpens : Action → Type 0
NeverOpens (happens (opened _)) = ⊥
NeverOpens _ = Unit

-- While no connection opens the watchdog is blind: a socket that is not connected stays so, and
-- however long it is silent, no round engages the switch.
disconnected_never_trips :
    (timeout : ℕ) (actions : List Action) (s : Socket) (armed : Bool) (kill : Switch)
    → All NeverOpens actions
    → s.connected ≡ false
    → let (s', (armed', kill')) = act_all timeout actions (s, (armed, kill)) in
      (s'.connected ≡ false) × (armed' ≡ armed) × (kill' ≡ kill)
unfolding act_all act happen
disconnected_never_trips timeout [] s armed kill all off = (off, refl, refl)
disconnected_never_trips timeout (happens (opened t) ∷ more) s armed kill (never, all) off =
    absurd never
disconnected_never_trips timeout (happens (message t) ∷ more) s armed kill (_, all) off =
    disconnected_never_trips timeout more (record s { last_message_at = t }) armed kill all off
disconnected_never_trips timeout (happens subscribed ∷ more) s armed kill (_, all) off =
    disconnected_never_trips timeout more (record s { attempt = 0 }) armed kill all off
disconnected_never_trips timeout (happens closed ∷ more) s armed kill (_, all) off =
    disconnected_never_trips timeout more s armed kill all off
disconnected_never_trips timeout (happens failed ∷ more) s armed kill (_, all) off =
    disconnected_never_trips timeout more (record s { connected = false; attempt = suc s.attempt })
      armed kill all refl
disconnected_never_trips timeout (looks now utc ∷ more) s armed kill (_, all) off =
    let idle : round timeout now utc s (armed, kill) ≡ (armed, kill) =
      unfold round arm guard in ground arith in
    let skipped : act_all timeout (looks now utc ∷ more) (s, (armed, kill))
        ≡ act_all timeout more (s, (armed, kill)) =
      ap (λ w. act_all timeout more (s, w)) idle in
    rw skipped (disconnected_never_trips timeout more s armed kill all off)
