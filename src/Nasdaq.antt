-- ===== src/Nasdaq.antt =====
-- scripts/trading/nasdaq_*.py: the shared code of strategies 6 and 7.
pub mod Risk
pub mod State
pub mod Signal
pub mod Overlay
pub mod Run
pub mod Long
pub mod Short
