-- ===== src/Intraday.antt =====
-- scripts/trading/strategy_rsi_intraday.py: strategy 13, which buys QQQ by its RSI.
pub mod Exits
pub mod Run
