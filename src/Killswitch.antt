-- ===== src/Killswitch.antt =====
-- scripts/trading/master_killswitch.py: the emergency halt and its reset.
pub mod Teardown
pub mod Halt
