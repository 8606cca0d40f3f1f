-- ===== src/Ws.antt =====
-- kalshi_agent/kalshi/ws.py: the state of the connection and the watchdog. Frames are messages with
-- a time; subscriptions and handlers are left out, and the jitter of a wait is an argument. Times are
-- readings of the monotonic clock in microseconds.
pub mod Silence
pub mod Frames
use kalshi_agent.Base.{
  ℕ, suc, ◌+◌, ◌-◌, ◌*◌, ◌^◌, ◌/◌, Bool, true, false, not, ◌&&◌, ◌||◌, Option, none, some, List, [],
  ◌∷◌, min, ltb, if◌then◌else◌,
}
use kalshi_agent.KillSwitch.{Switch, is_engaged, engage, ws_silent, ws_watchdog}

pub record Socket : Type 0 where
  pub connected : Bool
  pub last_message_at : ℕ
  pub attempt : ℕ

-- `KalshiWebSocket.__init__`
abbrev pub new_socket : ℕ → Socket
new_socket now = record { connected = false; last_message_at = now; attempt = 0 }

-- What happens to a connection in `run`: it opens, the subscriptions are sent, a frame comes, the
-- server closes it, or an exception ends it.
pub data Happening : Type 0 where
  opened message : ℕ → Happening
  subscribed closed failed : Happening

unfoldable pub happen : Happening → Socket → Socket
happen (opened now) s = record s { connected = true; last_message_at = now }
happen subscribed s = record s { attempt = 0 }
happen (message now) s = record s { last_message_at = now }
happen closed s = s
happen failed s = record s { connected = false; attempt = suc s.attempt }

-- The wait behind a failure, with its jitter.
unfoldable pub backoff : ℕ → ℕ → ℕ
backoff attempt jitter = min (2 ^ attempt * 1_000_000) 30_000_000 + jitter

unfoldable pub seconds_since_last_message : ℕ → Socket → ℕ
seconds_since_last_message now s = now - s.last_message_at

-- `WSWatchdog.run`: whether the watchdog is armed, which it is from the first round on that finds
-- the socket connected.
unfoldable pub arm : Socket → Bool → Bool
arm s armed = armed || s.connected

-- One armed round; the reason has whole seconds.
unfoldable pub guard : ℕ → ℕ → ℕ → Socket → Switch → Switch
guard timeout now utc s kill =
    let silence = seconds_since_last_message now s in
    if ltb timeout silence && s.connected && not (is_engaged kill)
    then engage (ws_silent silence) ws_watchdog utc kill
    else kill

-- A round of either loop.
unfoldable pub round : ℕ → ℕ → ℕ → Socket → Bool × Switch → Bool × Switch
round timeout now utc s (armed, kill) =
    if arm s armed then (true, guard timeout now utc s kill) else (false, kill)

-- The connection and the watchdog side by side: what happens to the socket, and the rounds.
pub data Action : Type 0 where
  happens : Happening → Action
  looks : ℕ → ℕ → Action

unfoldable pub act : ℕ → Action → Socket × (Bool × Switch) → Socket × (Bool × Switch)
act timeout (happens h) (s, w) = (happen h s, w)
act timeout (looks now utc) (s, w) = (s, round timeout now utc s w)

unfoldable pub act_all : ℕ → List Action → Socket × (Bool × Switch) → Socket × (Bool × Switch)
act_all timeout [] st = st
act_all timeout (a ∷ more) st = act_all timeout more (act timeout a st)
