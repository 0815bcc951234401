-- ===== src/Intraday/Exits/Decision.antt =====
-- strategy_rsi_intraday.py: which exit a check gives, and exactly when.
use blackhole_network.Base.{ℕ, ◌-◌, ◌*◌, ◌≤◌, ◌<◌, true, ◌≡◌, ◌↔◌, arith, str_eq}
use blackhole_network.Core.Types.{target, trailing_stop, time_exit, Trade}
use blackhole_network.Nasdaq.Risk.{get_water_mark, age_days}
use blackhole_network.Intraday.Exits.{
  Exit, hold_on, exit_for, gained, fell, mark_now, evaluate_exit,
}

-- The number of the exit: 0 holds, 1 the target, 2 the trailing stop, 3 the time, 4 the division.
abbrev pub code_of : Exit → ℕ
code_of hold_on = 0
code_of (exit_for target) = 1
code_of (exit_for trailing_stop) = 2
code_of (exit_for time_exit) = 3
code_of _ = 4

-- A position in QQQ with a price and a mark above 0 is left for the target from 8% above the
-- entry, else for the trailing stop from 3% below the highest price seen, else for the time after
-- five days, and held in all other cases; a position in another ticker is held whatever its price.
pub evaluate_exit-decides :
    (t : Trade) (current now : ℕ)
    → 0 < t.entry_price
    → 0 < get_water_mark t
    → let mark = mark_now t current in
      let gain = 108 * t.entry_price ≤ 100 * current in
      let fall = 3 * mark ≤ 100 * (mark - current) in
      let old = 5 ≤ age_days now t.entry_time in
      let traded = str_eq t.ticker "QQQ" ≡ true in
      let code = code_of (evaluate_exit t current now) in
      (code ≡ 1 ↔ traded × gain)
      × (code ≡ 2 ↔ traded × ¬ gain × fall)
      × (code ≡ 3 ↔ traded × ¬ gain × ¬ fall × old)
      × ¬ code ≡ 4
unfolding evaluate_exit gained fell
evaluate_exit-decides t current now e m = (ground arith, ground arith, ground arith, ground arith)
