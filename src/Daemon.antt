-- ===== src/Daemon.antt =====
-- scripts/trading/reconciliation_daemon.py: the three-way comparison of positions.
pub mod Sources
pub mod Compare
pub mod Cycle
