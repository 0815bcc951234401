-- ===== src/Value.antt =====
-- scripts/trading/strategy_value.py: strategy 2, on the figures of companies.
pub mod Screen
pub mod Company
pub mod Run
