-- ===== src/Intraday/Run.antt =====
-- scripts/trading/strategy_rsi_intraday.py: one run of strategy 13. The newest rsi_14 of market_daily, in
-- ten-thousandths, is an argument.
pub mod Idle
pub mod Lasting
use blackhole_network.Base.{
  ℕ, ◌+◌, ◌*◌, ◌/◌, String, Bool, true, false, Option, none, some, List, [], ◌∷◌, any, ltb, ◌==◌,
  str_eq, if◌then◌else◌,
}
use blackhole_network.Core.Types.{ExitReason, buy, manual, Message, note, Trade}
use blackhole_network.Core.World.{Env, Client, type_error, division_by_zero}
use blackhole_network.Core.Monad.{Call, pass, raise, answer, raise_if, try_except, ◌>>=◌, ◌>>◌}
use blackhole_network.Core.Clients.{get_strategy_alpaca}
use blackhole_network.Core.Trades.{get_open_trades, close_trade}
use blackhole_network.Core.Orders.{or_price}
use blackhole_network.Nasdaq.Risk.{get_water_mark, persist_water_mark}
use blackhole_network.Nasdaq.Run.{submit_close, order_shares, run_main}
use blackhole_network.Intraday.Exits.{
  Exit, hold_on, no_quotient, exit_for, traded_ticker, park_ticker, evaluate_exit,
}

-- STRATEGY_ID
abbrev pub strategy_id : String
strategy_id = "strat_13_rsi_intraday"

-- RSI_BUY_THRESHOLD, RSI_SELL_THRESHOLD
abbrev pub rsi_buy_threshold : ℕ
rsi_buy_threshold = 300000

abbrev pub rsi_sell_threshold : ℕ
rsi_sell_threshold = 700000

pub data State : Type 0 where
  flat in_qqq parked_jpst : State

abbrev holds : String → List Trade → Bool
holds ticker = any (λ t. str_eq t.ticker ticker)

unfoldable pub state_of : List Trade → State
state_of open_trades =
    if holds traded_ticker open_trades
    then in_qqq
    else if holds park_ticker open_trades
    then parked_jpst
    else flat

pub current_state : Call State
current_state = get_open_trades (some strategy_id) >>= λ ts. pass (state_of ts)

module _ (env : Env) where
  pub get_live_price : String → Call (Option ℕ)
  get_live_price ticker =
      try_except
        (do
          client ← get_strategy_alpaca env strategy_id
          price ← answer (env.latest_trade client ticker)
          pass (some price))
        (λ e. pass none)

  abbrev raise_mark : Trade → ℕ → Call (Unit {0})
  raise_mark t price =
      if str_eq t.ticker traded_ticker
      then if ltb (get_water_mark t) price then persist_water_mark t.id price else pass tt
      else pass tt

  pub close_at : Client → Trade → ℕ → ExitReason → Call Bool
  close_at client t price why =
      try_except
        (do
          order ← submit_close env client t
          closed ← close_trade env t.id (or_price order.filled_avg_price price) why (some order.id)
          pass true)
        (λ e. pass false)

  abbrev act_on : Client → Trade → ℕ → Exit → Call Bool
  act_on client t price hold_on = pass false
  act_on client t price no_quotient = raise division_by_zero
  act_on client t price (exit_for why) = close_at client t price why

  abbrev risk_check : Client → Trade → Option ℕ → Call Bool
  risk_check client t none = pass false
  risk_check client t (some price) =
      raise_mark t price >> act_on client t price (evaluate_exit t price env.now)

  risk_check_each : Client → List Trade → ℕ → Call ℕ
  risk_check_each client [] n = pass n
  risk_check_each client (t ∷ ts) n = do
    price ← get_live_price t.ticker
    closed ← risk_check client t price
    risk_check_each client ts (if closed then n + 1 else n)

  abbrev risk_check_held : List Trade → Call ℕ
  risk_check_held [] = pass 0
  risk_check_held (t ∷ ts) =
      get_strategy_alpaca env strategy_id >>= λ client. risk_check_each client (t ∷ ts) 0

  -- How many trades were closed.
  pub risk_check_open_trades : Call ℕ
  risk_check_open_trades = get_open_trades (some strategy_id) >>= risk_check_held

  liquidate_each : Client → List Trade → Call (Unit {0})
  liquidate_each client [] = pass tt
  liquidate_each client (t ∷ ts) = do
    price ← get_live_price t.ticker
    closed ← close_at client t (or_price price t.entry_price) manual
    liquidate_each client ts

  abbrev liquidate_held : List Trade → Call (Unit {0})
  liquidate_held [] = pass tt
  liquidate_held (t ∷ ts) =
      get_strategy_alpaca env strategy_id >>= λ client. liquidate_each client (t ∷ ts)

  pub liquidate_all : Call (Unit {0})
  liquidate_all = get_open_trades (some strategy_id) >>= liquidate_held

  abbrev open_at : String → ℕ → Message → Option ℕ → Call (Option ℕ)
  open_at ticker allocation why none = pass none
  open_at ticker allocation why (some price) = do
    raise_if (price == 0) division_by_zero
    let qty = allocation * 99 / (100 * price)
    if qty == 0 then pass none else order_shares env strategy_id ticker buy why price qty

  -- TARGET_HOLDING_FRACTION is 0.99.
  pub open_position : String → ℕ → Message → Call (Option ℕ)
  open_position ticker allocation why = get_live_price ticker >>= open_at ticker allocation why

  abbrev leave_if : Bool → Call (Unit {0})
  leave_if true = liquidate_all
  leave_if false = pass tt

  -- What is held is left only on the way to the other ticker.
  abbrev pub enter : String → ℕ → Message → Bool → Bool → Call (Unit {0})
  enter ticker allocation why true leaves = pass tt
  enter ticker allocation why false leaves =
      leave_if leaves >> (open_position ticker allocation why >>= λ opened. pass tt)

  abbrev pub is_in_qqq : State → Bool
  is_in_qqq in_qqq = true
  is_in_qqq _ = false

  abbrev pub is_parked : State → Bool
  is_parked parked_jpst = true
  is_parked _ = false

  abbrev pub act_on_rsi : ℕ → ℕ → State → Call (Unit {0})
  act_on_rsi allocation rsi now =
      if ltb rsi rsi_buy_threshold
      then enter traded_ticker allocation (note "RSI < 30") (is_in_qqq now) (is_parked now)
      else if ltb rsi_sell_threshold rsi
      then enter park_ticker allocation (note "RSI > 70") (is_parked now) (is_in_qqq now)
      else pass tt

  unfoldable pub do_signal_cycle : Option ℕ → ℕ → Call (Unit {0})
  do_signal_cycle none allocation = pass tt
  do_signal_cycle (some rsi) allocation = current_state >>= act_on_rsi allocation rsi

  abbrev park_if : ℕ → State → Call (Unit {0})
  park_if allocation flat =
      open_position park_ticker allocation (note "post-exit auto-park") >>= λ opened. pass tt
  park_if allocation _ = pass tt

  abbrev auto_park : ℕ → ℕ → Call (Unit {0})
  auto_park allocation closed =
      if closed == 0 then pass tt else current_state >>= park_if allocation

  pub cycle : Option ℕ → ℕ → Call (Unit {0})
  cycle rsi allocation = do
    closed ← risk_check_open_trades
    auto_park allocation closed
    do_signal_cycle rsi allocation

  pub main : Option ℕ → Call ℕ
  main rsi = run_main env strategy_id (cycle rsi)
