-- ===== src/Strategies.antt =====
-- scripts/trading/strategy_*.py: what holds of every strategy program that is modelled.
pub mod Entry
pub mod Records
pub mod Caps
