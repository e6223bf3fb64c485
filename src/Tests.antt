-- ===== src/Tests.antt =====
-- Concrete runs: each property at an input where its hypotheses hold, over fixed-point numbers.
mod Data
mod Site
mod Gateways
mod Risk
mod Settling
mod Breakers
mod Orders
mod Trades
mod Venues
mod Controls
mod Ledger
mod Feeds
mod Research
