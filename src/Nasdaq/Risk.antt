-- ===== src/Nasdaq/Risk.antt =====
-- scripts/trading/nasdaq_risk.py: the trailing stop, the profit target and the holding limit.
-- Prices are in ten-thousandths; the stop level is in millionths, so that 5% is exact.
pub mod Ratchet
pub mod Decision
use blackhole_network.Base.{
  ℕ, ◌-◌, ◌*◌, ◌/◌, String, Bool, true, false, ◌&&◌, Option, none, some, leb, ltb, if◌then◌else◌,
}
use blackhole_network.Base.Int.{pos, ◌-ℤ◌, scale, leb_ℤ}
use blackhole_network.Core.Types.{
  Action, buy, sell, hold, ExitReason, trailing_stop, target, time_exit, manual, Ratio, Trade,
  Severity, info, warning, close_text,
}
use blackhole_network.Core.World.{Env}
use blackhole_network.Core.Monad.{Call, pass, write, ◌>>=◌, ◌>>◌}
use blackhole_network.Core.Breakers.{send_alert}
use blackhole_network.Core.Trades.{Closed, close_trade, update_trade}

-- STOP_LOSS_PCT, in percent
abbrev pub stop_loss_pct : ℕ
stop_loss_pct = 5

-- PROFIT_TARGET_LONG_PCT and PROFIT_TARGET_SHORT_PCT, in ten-thousandths
abbrev pub profit_target_long_pct : ℕ
profit_target_long_pct = 1325

abbrev pub profit_target_short_pct : ℕ
profit_target_short_pct = 1500

abbrev pub max_hold_days : ℕ
max_hold_days = 60

pub data RiskAction : Type 0 where
  keep_holding stop_loss profit_target max_hold : RiskAction

pub record RiskCheckResult : Type 0 where
  pub trade_id : ℕ
  pub side : Action
  pub entry_price : ℕ
  pub current_price : ℕ
  pub water_mark : ℕ
  pub stop_level : ℕ
  pub pnl_pct : Ratio
  pub action : RiskAction

-- `_get_water_mark`
unfoldable pub get_water_mark : Trade → ℕ
get_water_mark t = elim t.water_mark [ some wm ↦ wm | none ↦ t.entry_price ]

-- The mark moves only in the favourable direction.
unfoldable pub moved : Action → ℕ → ℕ → Bool
moved buy current wm = ltb wm current
moved sell current wm = ltb current wm
moved hold current wm = false

-- wm * (1 - 5%) or wm * (1 + 5%), in millionths
unfoldable pub stop_level_of : Action → ℕ → ℕ
stop_level_of buy wm = wm * 95
stop_level_of sell wm = wm * 105
stop_level_of hold wm = 0

unfoldable pub pnl_ratio : Action → ℕ → ℕ → Ratio
pnl_ratio buy current entry = record { num = pos current -ℤ pos entry; den = entry }
pnl_ratio sell current entry = record { num = pos entry -ℤ pos current; den = entry }
pnl_ratio hold current entry = record { num = pos 0; den = 1 }

unfoldable pub stop_hit : Action → ℕ → ℕ → Bool
stop_hit buy current stop = leb (current * 100) stop
stop_hit sell current stop = leb stop (current * 100)
stop_hit hold current stop = false

-- pnl_pct >= profit_target_pct, multiplied out
unfoldable pub target_hit : Ratio → ℕ → Bool
target_hit pnl goal = leb_ℤ (pos (goal * pnl.den)) (scale 10000 pnl.num)

-- Whole days since the entry; a clock before the entry counts as no day.
unfoldable pub age_days : ℕ → ℕ → ℕ
age_days now entry_time = (now - entry_time) / 86400

abbrev is_unknown_side : Action → Bool
is_unknown_side hold = true
is_unknown_side _ = false

-- The order of the checks: holding limit, trailing stop, profit target.
unfoldable pub risk_action : Action → ℕ → ℕ → ℕ → Ratio → ℕ → RiskAction
risk_action side age current stop pnl goal =
    if is_unknown_side side
    then keep_holding
    else if leb max_hold_days age
    then max_hold
    else if stop_hit side current stop
    then stop_loss
    else if target_hit pnl goal
    then profit_target
    else keep_holding

-- The result without the write to the database.
unfoldable pub evaluate : Trade → ℕ → ℕ → ℕ → RiskCheckResult
evaluate t now current goal =
    let wm = if moved t.side current (get_water_mark t) then current else get_water_mark t in
    let stop = stop_level_of t.side wm in
    let pnl = pnl_ratio t.side current t.entry_price in
    record {
      trade_id = t.id;
      side = t.side;
      entry_price = t.entry_price;
      current_price = current;
      water_mark = wm;
      stop_level = stop;
      pnl_pct = pnl;
      action = risk_action t.side (age_days now t.entry_time) current stop pnl goal;
    }

abbrev pub set_mark : ℕ → Trade → Trade
set_mark wm t = record t { water_mark = some wm }

-- `_persist_water_mark`
unfoldable pub persist_water_mark : ℕ → ℕ → Call (Unit {0})
persist_water_mark id wm = write (λ w. record w { trades = update_trade id (set_mark wm) w.trades })

module _ (env : Env) where
  unfoldable pub evaluate_trade : Trade → ℕ → ℕ → Bool → Call RiskCheckResult
  unfolding persist_water_mark
  evaluate_trade t current goal persist = do
    if persist && moved t.side current (get_water_mark t)
        then persist_water_mark t.id current
        else pass tt
    pass (evaluate t env.now current goal)

  pub exit_reason_of : RiskAction → ExitReason
  exit_reason_of stop_loss = trailing_stop
  exit_reason_of profit_target = target
  exit_reason_of max_hold = time_exit
  exit_reason_of keep_holding = manual

  severity_of : RiskAction → Severity
  severity_of stop_loss = warning
  severity_of _ = info

  -- The row is closed for the reason that the check gave, and the alert is sent.
  unfoldable pub close_with_alert : Trade → ℕ → RiskCheckResult → Option String → Call Closed
  unfolding exit_reason_of severity_of send_alert
  close_with_alert t exit result order = do
    closed ← close_trade env t.id exit (exit_reason_of result.action) order
    send_alert (severity_of result.action) (close_text t.id (exit_reason_of result.action))
    pass closed
