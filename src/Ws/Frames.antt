-- ===== src/Ws/Frames.antt =====
-- The subscriptions and the frames of kalshi_agent/kalshi/ws.py. `S` are the parameters of a
-- subscription, and a handler is known by its type: what it does is not modelled, and an exception
-- that it raises is only logged.
use kalshi_agent.Base.{
  ℕ, suc, ◌+◌, ◌≡◌, refl, ap, Bool, true, false, Option, none, some, String, List, [], ◌∷◌, ◌++◌,
  map, length, arith, if◌then◌else◌,
}
use text.Mathlib.Text.{◌==◌ as str_eq}

module _ {S : Type 0} where
  -- `subscribe`
  unfoldable pub subscribe : S → List S → List S
  subscribe sub subs = subs ++ sub ∷ []

  -- `_send_subscribe`: the commands with their ids, and `_cmd_id` behind them.
  unfoldable pub send_subscribe : List S → ℕ → List (ℕ × S) × ℕ
  send_subscribe [] cmd_id = ([], cmd_id)
  send_subscribe (sub ∷ subs) cmd_id =
      let (sent, last) = send_subscribe subs (suc cmd_id) in ((suc cmd_id, sub) ∷ sent, last)

  abbrev ids_from : ℕ → List S → List ℕ
  ids_from n [] = []
  ids_from n (_ ∷ subs) = suc n ∷ ids_from (suc n) subs

  -- Each connection sends every subscription once, in their order, under the ids that follow the
  -- last one used.
  subscriptions_sent :
      (subs : List S) (cmd_id : ℕ)
      → let (sent, last) = send_subscribe subs cmd_id in
        (map (λ m. m.1) sent ≡ subs)
        × (map (λ m. m.0) sent ≡ ids_from cmd_id subs)
        × (last ≡ cmd_id + length subs)
  unfolding send_subscribe
  subscriptions_sent [] cmd_id = (refl, refl, omega arith)
  subscriptions_sent (sub ∷ subs) cmd_id =
      let (same, ids, last) = subscriptions_sent subs (suc cmd_id) in
      (ap (λ xs. sub ∷ xs) same, ap (λ xs. suc cmd_id ∷ xs) ids, omega (arith, last))

-- A frame that is no JSON, JSON that is no object, or a message with its type and its channel,
-- which may be missing.
pub data Frame : Type 0 where
  bad_json no_object : Frame
  message : Option String → Option String → Frame

-- What becomes of a frame: nothing, a call of the handler of a type, or the end of the connection.
pub data Dispatch : Type 0 where
  skipped ended : Dispatch
  handled : String → Dispatch

abbrev or_next : Option String → String → String
or_next none next = next
or_next (some s) next = if str_eq s "" then next else s

-- `msg.get("type") or msg.get("channel") or "unknown"`
unfoldable pub message_type : Option String → Option String → String
message_type type channel = or_next type (or_next channel "unknown")

abbrev pub contains_text : String → List String → Bool
contains_text s [] = false
contains_text s (t ∷ ts) = if str_eq s t then true else contains_text s ts

-- A frame goes to the handler of its type, of those that `on` has registered; `get` of JSON that is
-- no object raises out of the loop.
unfoldable pub dispatch : List String → Frame → Dispatch
unfolding message_type
dispatch handlers bad_json = skipped
dispatch handlers no_object = ended
dispatch handlers (message type channel) =
    let t = message_type type channel in if contains_text t handlers then handled t else skipped
