-- ===== src/Api.antt =====
-- kalshi_agent/api: the HTTP server. `Api.Auth` has the tokens, `Api.Control`, `Api.Observer` and
-- `Api.Dashboard` the routes, and `Api.Server` their composition.
pub mod Auth
pub mod Control
pub mod Rows
pub mod Observer
pub mod Dashboard
pub mod Server
