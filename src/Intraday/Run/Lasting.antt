-- ===== src/Intraday/Run/Lasting.antt =====
-- strategy_rsi_intraday.py: what a run of strategy 13 does to paper_trades.
use blackhole_network.Base.{ℕ, String, Bool, true, false, Option, none, some, List, [], ◌∷◌}
use blackhole_network.Core.Types.{Trade, ExitReason, Message}
use blackhole_network.Core.World.{Env, Client}
use blackhole_network.Core.Monad.Keeps.{Keeps, Keeps-bind}
use blackhole_network.Core.Trades.Lasting.{Lasting, Lasting-preorder}
use blackhole_network.Nasdaq.Run.Lasting.{trade_rules, run_main-Lasting}
use blackhole_network.Intraday.Exits.{Exit, hold_on, no_quotient, exit_for}
use blackhole_network.Intraday.Run.{
  State, flat, in_qqq, parked_jpst, strategy_id, current_state, get_live_price, raise_mark,
  close_at, act_on, risk_check, risk_check_each, risk_check_held, risk_check_open_trades,
  liquidate_each, liquidate_held, liquidate_all, open_at, open_position, leave_if, enter,
  act_on_rsi, do_signal_cycle, park_if, auto_park, cycle, main,
}

current_state-Lasting : Keeps Lasting current_state
unfolding current_state
current_state-Lasting = search trade_rules

module _ (env : Env) where
  get_live_price-own : (ticker : String) → Keeps Lasting (get_live_price env ticker)
  unfolding get_live_price
  get_live_price-own ticker = search trade_rules depth 20

  close_at-Lasting :
      (client : Client) (t : Trade) (price : ℕ) (why : ExitReason)
      → Keeps Lasting (close_at env client t price why)
  unfolding close_at
  close_at-Lasting client t price why = search trade_rules depth 20

  raise_mark-Lasting : (t : Trade) (price : ℕ) → Keeps Lasting (raise_mark env t price)
  raise_mark-Lasting t price = search trade_rules

  act_on-Lasting :
      (client : Client) (t : Trade) (price : ℕ) (exit : Exit)
      → Keeps Lasting (act_on env client t price exit)
  act_on-Lasting client t price hold_on = search trade_rules
  act_on-Lasting client t price no_quotient = search trade_rules
  act_on-Lasting client t price (exit_for why) = close_at-Lasting client t price why

  risk_check-Lasting :
      (client : Client) (t : Trade) (price : Option ℕ)
      → Keeps Lasting (risk_check env client t price)
  risk_check-Lasting client t none = search trade_rules
  risk_check-Lasting client t (some price) =
      search (trade_rules, raise_mark-Lasting, act_on-Lasting)

  risk_check_each-Lasting :
      (client : Client) (ts : List Trade) (n : ℕ) → Keeps Lasting (risk_check_each env client ts n)
  unfolding risk_check_each
  risk_check_each-Lasting client [] n = search trade_rules
  risk_check_each-Lasting client (t ∷ ts) n =
      search
        (trade_rules, get_live_price-own, risk_check-Lasting, risk_check_each-Lasting client ts)
        depth 20

  risk_check_held-Lasting : (ts : List Trade) → Keeps Lasting (risk_check_held env ts)
  risk_check_held-Lasting [] = search trade_rules
  risk_check_held-Lasting (t ∷ ts) = search (trade_rules, risk_check_each-Lasting)

  risk_check_open_trades-Lasting : Keeps Lasting (risk_check_open_trades env)
  unfolding risk_check_open_trades
  risk_check_open_trades-Lasting = search (trade_rules, risk_check_held-Lasting)

  liquidate_each-Lasting :
      (client : Client) (ts : List Trade) → Keeps Lasting (liquidate_each env client ts)
  unfolding liquidate_each
  liquidate_each-Lasting client [] = search trade_rules
  liquidate_each-Lasting client (t ∷ ts) =
      let rest = liquidate_each-Lasting client ts in
      Keeps-bind Lasting-preorder (get_live_price env t.ticker) _ (get_live_price-own t.ticker)
        (λ price.
          Keeps-bind Lasting-preorder (close_at env client t _ _) _ (close_at-Lasting client t _ _)
            (λ closed. rest))

  liquidate_held-Lasting : (ts : List Trade) → Keeps Lasting (liquidate_held env ts)
  liquidate_held-Lasting [] = search trade_rules
  liquidate_held-Lasting (t ∷ ts) = search (trade_rules, liquidate_each-Lasting)

  liquidate_all-Lasting : Keeps Lasting (liquidate_all env)
  unfolding liquidate_all
  liquidate_all-Lasting = search (trade_rules, liquidate_held-Lasting)

  open_at-Lasting :
      (ticker : String) (allocation : ℕ) (why : Message) (price : Option ℕ)
      → Keeps Lasting (open_at env ticker allocation why price)
  open_at-Lasting ticker allocation why none = search trade_rules
  open_at-Lasting ticker allocation why (some price) = search trade_rules depth 20

  open_position-Lasting :
      (ticker : String) (allocation : ℕ) (why : Message)
      → Keeps Lasting (open_position env ticker allocation why)
  unfolding open_position
  open_position-Lasting ticker allocation why =
      search (trade_rules, get_live_price-own, open_at-Lasting)

  leave_if-Lasting : (b : Bool) → Keeps Lasting (leave_if env b)
  leave_if-Lasting true = liquidate_all-Lasting
  leave_if-Lasting false = search trade_rules

  enter-Lasting :
      (ticker : String) (allocation : ℕ) (why : Message) (there leaves : Bool)
      → Keeps Lasting (enter env ticker allocation why there leaves)
  enter-Lasting ticker allocation why true leaves = search trade_rules
  enter-Lasting ticker allocation why false leaves =
      search (trade_rules, leave_if-Lasting, open_position-Lasting)

  act_on_rsi-Lasting :
      (allocation rsi : ℕ) (now : State) → Keeps Lasting (act_on_rsi env allocation rsi now)
  act_on_rsi-Lasting allocation rsi now = search (trade_rules, enter-Lasting)

  do_signal_cycle-Lasting :
      (rsi : Option ℕ) (allocation : ℕ) → Keeps Lasting (do_signal_cycle env rsi allocation)
  unfolding do_signal_cycle
  do_signal_cycle-Lasting none allocation = search trade_rules
  do_signal_cycle-Lasting (some rsi) allocation =
      search (trade_rules, current_state-Lasting, act_on_rsi-Lasting)

  park_if-Lasting : (allocation : ℕ) (now : State) → Keeps Lasting (park_if env allocation now)
  park_if-Lasting allocation flat = search (trade_rules, open_position-Lasting)
  park_if-Lasting allocation in_qqq = search trade_rules
  park_if-Lasting allocation parked_jpst = search trade_rules

  auto_park-Lasting : (allocation closed : ℕ) → Keeps Lasting (auto_park env allocation closed)
  auto_park-Lasting allocation closed = search (trade_rules, current_state-Lasting, park_if-Lasting)

  cycle-Lasting : (rsi : Option ℕ) (allocation : ℕ) → Keeps Lasting (cycle env rsi allocation)
  unfolding cycle
  cycle-Lasting rsi allocation =
      search
        (trade_rules, risk_check_open_trades-Lasting, auto_park-Lasting, do_signal_cycle-Lasting)
        depth 20

  pub main-Lasting : (rsi : Option ℕ) → Keeps Lasting (main env rsi)
  unfolding main
  main-Lasting rsi = run_main-Lasting env strategy_id (cycle env rsi) (cycle-Lasting rsi)
