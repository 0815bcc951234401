-- ===== src/Nasdaq/Short/Lasting.antt =====
-- strategy_nasdaq_short.py: what a run of strategy 7 does to paper_trades.
use blackhole_network.Base.{ℕ, String, Option, none, some, List, [], ◌∷◌}
use blackhole_network.Base.Int.{pos, negsuc}
use blackhole_network.Core.Types.{Action, Trade, Message}
use blackhole_network.Core.World.{Env, Client, Json, null, bool, num, str, arr, obj}
use blackhole_network.Core.Rules.{get_strategy_rules}
use blackhole_network.Core.Clients.Frame.{get_strategy_rules-SameTables}
use blackhole_network.Core.Monad.Keeps.{Keeps}
use blackhole_network.Core.Trades.Lasting.{Lasting, Lasting-of_tables}
use blackhole_network.Nasdaq.Run.Lasting.{trade_rules, run_main-Lasting}
use blackhole_network.Nasdaq.Signal.{RegressionScore, SpyState, NasdaqSignal}
use blackhole_network.Nasdaq.Short.{
  ShortState, neutral, in_short, strategy_id, derive_short_state, fraction_of, risk_check,
  risk_check_each, risk_check_held, risk_check_open_trades, close_leg, close_each, close_held,
  close_all_shorts, open_at, open_leg, enter_short_position, exit_if, enter_if, signal_cycle, cycle,
  main,
}

derive_short_state-Lasting : Keeps Lasting derive_short_state
unfolding derive_short_state
derive_short_state-Lasting = search trade_rules

get_strategy_rules-Lasting : (sid : String) → Keeps Lasting (get_strategy_rules sid)
get_strategy_rules-Lasting sid = Lasting-of_tables _ (get_strategy_rules-SameTables sid)

fraction_of-Lasting : (v : Option Json) (d : ℕ × ℕ) → Keeps Lasting (fraction_of v d)
fraction_of-Lasting none d = search trade_rules
fraction_of-Lasting (some (num (pos m) e)) d = search trade_rules
fraction_of-Lasting (some (num (negsuc m) e)) d = search trade_rules
fraction_of-Lasting (some null) d = search trade_rules
fraction_of-Lasting (some (bool b)) d = search trade_rules
fraction_of-Lasting (some (str s)) d = search trade_rules
fraction_of-Lasting (some (arr a)) d = search trade_rules
fraction_of-Lasting (some (obj o)) d = search trade_rules

module _ (env : Env) where
  risk_check-Lasting :
      (client : Client) (t : Trade) (price : Option ℕ)
      → Keeps Lasting (risk_check env client t price)
  risk_check-Lasting client t none = search trade_rules
  risk_check-Lasting client t (some price) = search trade_rules depth 30

  risk_check_each-Lasting :
      (client : Client) (ts : List Trade) (n : ℕ) → Keeps Lasting (risk_check_each env client ts n)
  unfolding risk_check_each
  risk_check_each-Lasting client [] n = search trade_rules
  risk_check_each-Lasting client (t ∷ ts) n =
      search (trade_rules, risk_check-Lasting, risk_check_each-Lasting client ts) depth 20

  risk_check_held-Lasting : (ts : List Trade) → Keeps Lasting (risk_check_held env ts)
  risk_check_held-Lasting [] = search trade_rules
  risk_check_held-Lasting (t ∷ ts) = search (trade_rules, risk_check_each-Lasting)

  risk_check_open_trades-Lasting : Keeps Lasting (risk_check_open_trades env)
  unfolding risk_check_open_trades
  risk_check_open_trades-Lasting = search (trade_rules, risk_check_held-Lasting)

  close_leg-Lasting :
      (client : Client) (t : Trade) (price : ℕ) → Keeps Lasting (close_leg env client t price)
  close_leg-Lasting client t price = search trade_rules depth 20

  close_each-Lasting :
      (client : Client) (ts : List Trade) (n : ℕ) → Keeps Lasting (close_each env client ts n)
  unfolding close_each
  close_each-Lasting client [] n = search trade_rules
  close_each-Lasting client (t ∷ ts) n =
      search (trade_rules, close_leg-Lasting, close_each-Lasting client ts) depth 20

  close_held-Lasting : (why : Message) (ts : List Trade) → Keeps Lasting (close_held env why ts)
  close_held-Lasting why [] = search trade_rules
  close_held-Lasting why (t ∷ ts) = search (trade_rules, close_each-Lasting) depth 20

  close_all_shorts-Lasting : (why : Message) → Keeps Lasting (close_all_shorts env why)
  unfolding close_all_shorts
  close_all_shorts-Lasting why = search (trade_rules, close_held-Lasting)

  open_at-Lasting :
      (ticker : String) (side : Action) (allocation : ℕ) (share : ℕ × ℕ) (why : Message)
      (price : Option ℕ)
      → Keeps Lasting (open_at env ticker side allocation share why price)
  open_at-Lasting ticker side allocation share why none = search trade_rules
  open_at-Lasting ticker side allocation (m, e) why (some price) = search trade_rules depth 20

  open_leg-Lasting :
      (ticker : String) (side : Action) (allocation : ℕ) (share : ℕ × ℕ) (why : Message)
      → Keeps Lasting (open_leg env ticker side allocation share why)
  unfolding open_leg
  open_leg-Lasting ticker side allocation share why = search (trade_rules, open_at-Lasting)

  enter_short_position-Lasting :
      (allocation : ℕ) (why : Message) → Keeps Lasting (enter_short_position env allocation why)
  unfolding enter_short_position
  enter_short_position-Lasting allocation why =
      search (trade_rules, get_strategy_rules-Lasting, fraction_of-Lasting, open_leg-Lasting) depth
        40

  exit_if-Lasting :
      (scores : List RegressionScore) (spy : Option SpyState) (state : ShortState)
      → Keeps Lasting (exit_if env scores spy state)
  exit_if-Lasting scores spy neutral = search trade_rules
  exit_if-Lasting scores spy in_short = search (trade_rules, close_all_shorts-Lasting)

  enter_if-Lasting :
      (allocation : ℕ) (signal : NasdaqSignal) (state : ShortState)
      → Keeps Lasting (enter_if env allocation signal state)
  enter_if-Lasting allocation signal in_short = search trade_rules
  enter_if-Lasting allocation signal neutral = search (trade_rules, enter_short_position-Lasting)

  signal_cycle-Lasting :
      (scores : List RegressionScore) (spy : Option SpyState) (allocation : ℕ)
      → Keeps Lasting (signal_cycle env scores spy allocation)
  signal_cycle-Lasting scores spy allocation =
      search (trade_rules, derive_short_state-Lasting, exit_if-Lasting, enter_if-Lasting) depth 30

  cycle-Lasting :
      (scores : List RegressionScore) (spy : Option SpyState) (allocation : ℕ)
      → Keeps Lasting (cycle env scores spy allocation)
  unfolding cycle
  cycle-Lasting scores spy allocation =
      search
        (
          trade_rules, derive_short_state-Lasting, risk_check_open_trades-Lasting,
          signal_cycle-Lasting,
        )
        depth 20

  pub main-Lasting :
      (scores : List RegressionScore) (spy : Option SpyState) → Keeps Lasting (main env scores spy)
  unfolding main
  main-Lasting scores spy = run_main-Lasting env strategy_id _ (cycle-Lasting scores spy)
