-- ===== src/Core.antt =====
-- scripts/trading/trading_core.py
pub mod Types
pub mod World
pub mod Monad
pub mod Json
pub mod Environ
pub mod Rules
pub mod Sms
pub mod Clients
pub mod Lifecycle
pub mod Breakers
pub mod Gate
pub mod Trades
pub mod Orders
pub mod Reconcile
pub mod Halt
