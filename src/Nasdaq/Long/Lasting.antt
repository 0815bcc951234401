-- ===== src/Nasdaq/Long/Lasting.antt =====
-- strategy_nasdaq_long.py: what a run of strategy 6 does to paper_trades.
use blackhole_network.Base.{ℕ, String, Option, none, some, List, [], ◌∷◌}
use blackhole_network.Core.Types.{Trade, Message}
use blackhole_network.Core.World.{Env, Client}
use blackhole_network.Core.Monad.Keeps.{Keeps, Keeps-bind}
use blackhole_network.Core.Trades.Lasting.{Lasting, Lasting-preorder}
use blackhole_network.Nasdaq.Risk.{RiskCheckResult}
use blackhole_network.Nasdaq.Run.{get_live_price}
use blackhole_network.Nasdaq.Run.Lasting.{trade_rules, get_live_price-Lasting, run_main-Lasting}
use blackhole_network.Nasdaq.State.{NasdaqState, flat, in_position, parked, derive_state}
use blackhole_network.Nasdaq.Signal.{RegressionScore}
use blackhole_network.Nasdaq.Long.{
  strategy_id, announce_transition, risk_close, risk_check, risk_check_each, risk_check_open_trades,
  liquidate_one, liquidate_each, liquidate_all, open_at, open_position, announce_opened,
  do_signal_cycle, park_if_flat, cycle, main,
}

derive_state-Lasting :
    (sid : String) (tickers : List String) → Keeps Lasting (derive_state sid tickers)
unfolding derive_state
derive_state-Lasting sid tickers = search trade_rules

announce_transition-Lasting :
    (old new : NasdaqState) (why : Message) → Keeps Lasting (announce_transition old new why)
unfolding announce_transition
announce_transition-Lasting old new why = search trade_rules

module _ (env : Env) where
  risk_close-Lasting :
      (t : Trade) (price : ℕ) (result : RiskCheckResult) (client : Client)
      → Keeps Lasting (risk_close env t price result client)
  risk_close-Lasting t price result client = search trade_rules depth 20

  risk_check-Lasting : (t : Trade) (price : Option ℕ) → Keeps Lasting (risk_check env t price)
  risk_check-Lasting t none = search trade_rules
  risk_check-Lasting t (some price) = search (trade_rules, risk_close-Lasting) depth 20

  risk_check_each-Lasting : (ts : List Trade) (n : ℕ) → Keeps Lasting (risk_check_each env ts n)
  unfolding risk_check_each
  risk_check_each-Lasting [] n = search trade_rules
  risk_check_each-Lasting (t ∷ ts) n =
      search (trade_rules, risk_check-Lasting, risk_check_each-Lasting ts) depth 20

  risk_check_open_trades-Lasting : Keeps Lasting (risk_check_open_trades env)
  unfolding risk_check_open_trades
  risk_check_open_trades-Lasting = search (trade_rules, risk_check_each-Lasting)

  liquidate_one-Lasting :
      (client : Client) (t : Trade) (price : ℕ) → Keeps Lasting (liquidate_one env client t price)
  liquidate_one-Lasting client t price = search trade_rules depth 20

  liquidate_each-Lasting :
      (client : Client) (ts : List Trade) → Keeps Lasting (liquidate_each env client ts)
  unfolding liquidate_each
  liquidate_each-Lasting client [] = search trade_rules
  liquidate_each-Lasting client (t ∷ ts) =
      let rest = liquidate_each-Lasting client ts in
      Keeps-bind Lasting-preorder (get_live_price env (some t.ticker)) _
        (get_live_price-Lasting env (some t.ticker))
        λ price.
          Keeps-bind Lasting-preorder (liquidate_one env client t _) _
            (liquidate_one-Lasting client t _) (λ done. rest)

  liquidate_all-Lasting : Keeps Lasting (liquidate_all env)
  unfolding liquidate_all
  liquidate_all-Lasting = search (trade_rules, liquidate_each-Lasting)

  open_at-Lasting :
      (ticker : Option String) (allocation : ℕ) (why : Message) (price : Option ℕ)
      → Keeps Lasting (open_at env ticker allocation why price)
  open_at-Lasting none allocation why price = search trade_rules
  open_at-Lasting (some ticker) allocation why none = search trade_rules
  open_at-Lasting (some ticker) allocation why (some price) = search trade_rules depth 20

  open_position-Lasting :
      (ticker : Option String) (allocation : ℕ) (why : Message)
      → Keeps Lasting (open_position env ticker allocation why)
  unfolding open_position
  open_position-Lasting ticker allocation why = search (trade_rules, open_at-Lasting)

  announce_opened-Lasting :
      (old : NasdaqState) (target : Option String) (opened : Option ℕ)
      → Keeps Lasting (announce_opened env old target opened)
  announce_opened-Lasting old target none = search trade_rules
  announce_opened-Lasting old target (some id) = search (trade_rules, announce_transition-Lasting)

  do_signal_cycle-Lasting :
      (allocation : ℕ) (scores : List RegressionScore)
      → Keeps Lasting (do_signal_cycle env allocation scores)
  unfolding do_signal_cycle
  do_signal_cycle-Lasting allocation scores =
      search
        (
          trade_rules, derive_state-Lasting, liquidate_all-Lasting, open_position-Lasting,
          announce_opened-Lasting,
        )
        depth 30

  park_if_flat-Lasting :
      (allocation : ℕ) (state : NasdaqState) → Keeps Lasting (park_if_flat env allocation state)
  park_if_flat-Lasting allocation flat =
      search (trade_rules, open_position-Lasting, announce_transition-Lasting)
  park_if_flat-Lasting allocation in_position = search trade_rules
  park_if_flat-Lasting allocation parked = search trade_rules

  cycle-Lasting :
      (scores : List RegressionScore) (allocation : ℕ) → Keeps Lasting (cycle env allocation scores)
  unfolding cycle
  cycle-Lasting scores allocation =
      search
        (
          trade_rules, risk_check_open_trades-Lasting, derive_state-Lasting, park_if_flat-Lasting,
          do_signal_cycle-Lasting,
        )
        depth 20

  pub main-Lasting : (scores : List RegressionScore) → Keeps Lasting (main env scores)
  unfolding main
  main-Lasting scores = run_main-Lasting env strategy_id _ (cycle-Lasting scores)
