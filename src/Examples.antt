-- ===== src/Examples.antt =====
-- The theorems at concrete inputs.
mod Data
mod Core
mod Clients
mod Killswitch
mod Daemon
mod Nasdaq
mod Prediction
mod Monitor
mod Strategies
