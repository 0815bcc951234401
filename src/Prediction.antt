-- ===== src/Prediction.antt =====
-- The weather bets of strategy 9: prediction_signal.py places them, prediction_settlement.py settles them.
pub mod Types
pub mod Ticker
pub mod Decision
pub mod Outcome
pub mod Payout
pub mod Window
pub mod Settlement
