-- ===== src/Tests/Socket.antt =====
-- The watchdog at concrete inputs.
use kalshi_agent.Base.{true}
use kalshi_agent.Ws.{Socket}

-- Connected, with the last frame 100 seconds ago.
abbrev silent : Socket
silent = record { connected = true; last_message_at = 0; attempt = 0 }
