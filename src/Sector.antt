-- ===== src/Sector.antt =====
-- scripts/trading/sector_signal.py and strategy_sector_rotation.py: the scores of the sectors, and
-- strategy 8, which holds the leader.
pub mod Indicators
pub mod Signal
pub mod Decision
pub mod Run
