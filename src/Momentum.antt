-- ===== src/Momentum.antt =====
-- scripts/trading/strategy_momentum.py: strategy 4, on the crosses of two averages.
pub mod Bars
pub mod Run
