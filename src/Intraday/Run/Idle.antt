-- ===== src/Intraday/Run/Idle.antt =====
-- strategy_rsi_intraday.py: when the signal cycle does nothing, and what the RSI asks for.
use blackhole_network.Base.{
  ℕ, ◌≤◌, false, none, some, List, [], ◌≡◌, inl, inr, Bool-cases, refl, arith, ltb,
}
use blackhole_network.Core.Types.{Trade}
use blackhole_network.Core.World.{World, Env, ok, raised}
use blackhole_network.Core.Trades.{get_open_trades}
use blackhole_network.Intraday.Run.{
  State, flat, in_qqq, parked_jpst, strategy_id, rsi_buy_threshold, rsi_sell_threshold, state_of,
  current_state, act_on_rsi, do_signal_cycle,
}

-- The RSI asks for nothing, or for what is held.
abbrev pub Content : ℕ → State → Type 0
Content rsi flat = (300000 ≤ rsi) × (rsi ≤ 700000)
Content rsi in_qqq = rsi ≤ 700000
Content rsi parked_jpst = 300000 ≤ rsi

act_on_rsi-idle :
    (env : Env) (allocation rsi : ℕ) (now : State) (w : World)
    → Content rsi now
    → act_on_rsi env allocation rsi now w ≡ (ok tt, w)
act_on_rsi-idle env allocation rsi flat w h =
    let low : ltb rsi rsi_buy_threshold ≡ false = ground arith in
    let high : ltb rsi_sell_threshold rsi ≡ false = ground arith in rw (low, high) refl
act_on_rsi-idle env allocation rsi in_qqq w h =
    let high : ltb rsi_sell_threshold rsi ≡ false = ground arith in
    elim (Bool-cases (ltb rsi rsi_buy_threshold)) [ inl e ↦ rw e refl | inr e ↦ rw (e, high) refl ]
act_on_rsi-idle env allocation rsi parked_jpst w h =
    let low : ltb rsi rsi_buy_threshold ≡ false = ground arith in
    elim (Bool-cases (ltb rsi_sell_threshold rsi)) [
      | inl e ↦ rw (low, e) refl
      | inr e ↦ rw (low, e) refl
    ]

-- The state of the open trades of the strategy.
abbrev pub state_in : World → State
unfolding get_open_trades
state_in w = state_of (open_rows w)
  where
    open_rows : World → List Trade
    open_rows v = elim (get_open_trades (some strategy_id) v).0 [ ok ts ↦ ts | raised e ↦ [] ]

-- Without an RSI, and with one that asks for nothing or for what the strategy holds, the signal cycle
-- returns and changes nothing: it places no order, closes no trade and sends no message.
pub do_signal_cycle-idle :
    (env : Env) (rsi allocation : ℕ) (w : World)
    → Content rsi (state_in w)
    → (do_signal_cycle env (some rsi) allocation w ≡ (ok tt, w))
      × (do_signal_cycle env none allocation w ≡ (ok tt, w))
unfolding do_signal_cycle current_state get_open_trades
do_signal_cycle-idle env rsi allocation w h =
    (act_on_rsi-idle env allocation rsi (state_in w) w h, refl)
