-- ===== src/Journal.antt =====
-- kalshi_agent/journal: `Journal.Redact` has the redaction of log records, `Journal.Discord` the
-- posts to the webhook. The set-up of structlog is left out.
pub mod Redact
pub mod Discord
