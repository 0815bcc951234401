-- ===== src/Intraday/Exits.antt =====
-- scripts/trading/strategy_rsi_intraday.py: `_evaluate_exit`, the risk of a QQQ position. Prices are in
-- ten-thousandths.
pub mod Decision
use blackhole_network.Base.{
  ℕ, ◌+◌, ◌-◌, ◌*◌, String, Bool, true, false, not, ◌||◌, Option, none, some, leb, ltb, ◌==◌,
  str_eq, if◌then◌else◌,
}
use blackhole_network.Core.Types.{ExitReason, trailing_stop, target, time_exit, Trade}
use blackhole_network.Nasdaq.Risk.{get_water_mark, age_days}

-- TICKER, PARK_TICKER
abbrev pub traded_ticker : String
traded_ticker = "QQQ"

abbrev pub park_ticker : String
park_ticker = "JPST"

-- TRAILING_STOP_PCT, PROFIT_TARGET_PCT, MAX_HOLD_DAYS
abbrev pub trailing_stop_pct : ℕ
trailing_stop_pct = 3

abbrev pub profit_target_pct : ℕ
profit_target_pct = 8

abbrev pub max_hold_days : ℕ
max_hold_days = 5

-- What `_evaluate_exit` decides; the last is the division by a mark of 0.
pub data Exit : Type 0 where
  hold_on no_quotient : Exit
  exit_for : ExitReason → Exit

unfoldable pub gained : ℕ → ℕ → Bool
gained entry current = leb ((100 + profit_target_pct) * entry) (100 * current)

unfoldable pub fell : ℕ → ℕ → Bool
fell mark current = leb (trailing_stop_pct * mark) (100 * (mark - current))

abbrev pub mark_now : Trade → ℕ → ℕ
mark_now t current = if ltb (get_water_mark t) current then current else get_water_mark t

unfoldable pub evaluate_exit : Trade → ℕ → ℕ → Exit
unfolding gained fell
evaluate_exit t current now =
    if not (str_eq t.ticker traded_ticker) || t.entry_price == 0
    then hold_on
    else if gained t.entry_price current
    then exit_for target
    else if mark_now t current == 0
    then no_quotient
    else if fell (mark_now t current) current
    then exit_for trailing_stop
    else if leb max_hold_days (age_days now t.entry_time)
    then exit_for time_exit
    else hold_on
