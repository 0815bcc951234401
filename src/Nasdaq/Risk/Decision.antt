-- ===== src/Nasdaq/Risk/Decision.antt =====
-- nasdaq_risk.py: which action a check gives, for a trade that was bought and for one that was sold.
use blackhole_network.Base.{ℕ, ◌*◌, ◌≤◌, ◌≡◌, ◌↔◌, arith}
use blackhole_network.Base.Int.{pos, ◌-ℤ◌, scale, ◌≤ℤ◌}
use blackhole_network.Core.Types.{buy, sell, Trade}
use blackhole_network.Nasdaq.Risk.{
  keep_holding, stop_loss, profit_target, max_hold, moved, stop_level_of, pnl_ratio, stop_hit,
  target_hit, age_days, risk_action, evaluate,
}

-- The mark that the check uses.
abbrev pub mark_at : Trade → ℕ → ℕ
unfolding evaluate
mark_at t current = (evaluate t 0 current 0).water_mark

-- A bought trade is closed by the holding limit from the sixtieth day on; else by the trailing stop
-- where the price is 5% or more below the mark; else by the target where the gain is at least the
-- goal of the entry price; and is kept otherwise.
pub evaluate-decides_buy :
    (t : Trade) (now current goal : ℕ)
    → t.side ≡ buy
    → let old = 60 ≤ age_days now t.entry_time in
      let stop = 100 * current ≤ 95 * mark_at t current in
      let gain = pos (goal * t.entry_price) ≤ℤ scale 10000 (pos current -ℤ pos t.entry_price) in
      let action = (evaluate t now current goal).action in
      (action ≡ max_hold ↔ old)
      × (action ≡ stop_loss ↔ ¬ old × stop)
      × (action ≡ profit_target ↔ ¬ old × ¬ stop × gain)
      × (action ≡ keep_holding ↔ ¬ old × ¬ stop × ¬ gain)
unfolding evaluate moved stop_level_of pnl_ratio stop_hit target_hit risk_action
evaluate-decides_buy t now current goal h = ground arith

-- The same for a trade that was sold: the stop is 5% or more above the mark, and the gain is the
-- fall of the price.
pub evaluate-decides_sell :
    (t : Trade) (now current goal : ℕ)
    → t.side ≡ sell
    → let old = 60 ≤ age_days now t.entry_time in
      let stop = 105 * mark_at t current ≤ 100 * current in
      let gain = pos (goal * t.entry_price) ≤ℤ scale 10000 (pos t.entry_price -ℤ pos current) in
      let action = (evaluate t now current goal).action in
      (action ≡ max_hold ↔ old)
      × (action ≡ stop_loss ↔ ¬ old × stop)
      × (action ≡ profit_target ↔ ¬ old × ¬ stop × gain)
      × (action ≡ keep_holding ↔ ¬ old × ¬ stop × ¬ gain)
unfolding evaluate moved stop_level_of pnl_ratio stop_hit target_hit risk_action
evaluate-decides_sell t now current goal h = ground arith
