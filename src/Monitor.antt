-- ===== src/Monitor.antt =====
-- weather_position_monitor.py: the stop-loss of the open Kalshi positions.
pub mod Positions
pub mod Triggers
pub mod Cycle
