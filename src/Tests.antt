-- ===== src/Tests.antt =====
-- The theorems at concrete inputs, and runs of the definitions.
mod Samples
mod Money
mod Trading
mod Books
mod Gains
mod Socket
mod Strategies
mod Orders
mod Kalshi
mod System
mod Server
mod Texts
mod Downtime
