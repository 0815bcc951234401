-- ===== src/Sector/Run/Lasting.antt =====
-- strategy_sector_rotation.py: what a run of strategy 8 does to paper_trades.
use blackhole_network.Base.{ℕ, String, Bool, Option, none, some, List, [], ◌∷◌}
use blackhole_network.Core.Types.{Trade}
use blackhole_network.Core.World.{Env, Client, Result}
use blackhole_network.Core.Monad.{Call}
use blackhole_network.Core.Monad.Keeps.{Keeps, Keeps-if, Keeps-bind}
use blackhole_network.Core.Trades.Lasting.{Lasting, Lasting-preorder}
use blackhole_network.Core.Orders.Lasting.{lasting_rules}
use blackhole_network.Nasdaq.Run.Lasting.{trade_rules, run_main-Lasting}
use blackhole_network.Sector.Signal.{Scores}
use blackhole_network.Sector.Signal.Lasting.{evaluate_sector_signal-Lasting}
use blackhole_network.Sector.Run.{
  Holding, strategy_id, derive_state, close_position, open_at, open_position, risk_check,
  risk_check_each, risk_check_open_trades, kept, liquidate_others, replace, set_target, refill_if,
  set_remainder, rebalance, if_scored, do_rebalance, cycle, main,
}

derive_state-Lasting : Keeps Lasting derive_state
unfolding derive_state
derive_state-Lasting = search lasting_rules

module _ (env : Env) where
  close_position-Lasting : (t : Trade) → Keeps Lasting (close_position env t)
  unfolding close_position
  close_position-Lasting t = search trade_rules depth 20

  open_at-Lasting :
      (ticker : String) (allocation : ℕ) (weight : ℕ × ℕ) (price : Option ℕ)
      → Keeps Lasting (open_at env ticker allocation weight price)
  open_at-Lasting ticker allocation weight none = search trade_rules
  open_at-Lasting ticker allocation weight (some price) = search trade_rules depth 20

  open_position-Lasting :
      (ticker : String) (allocation : ℕ) (weight : ℕ × ℕ)
      → Keeps Lasting (open_position env ticker allocation weight)
  unfolding open_position
  open_position-Lasting ticker allocation weight = search (trade_rules, open_at-Lasting)

  risk_check-Lasting : (t : Trade) (price : Option ℕ) → Keeps Lasting (risk_check env t price)
  risk_check-Lasting t none = search trade_rules
  risk_check-Lasting t (some price) = search trade_rules depth 30

  risk_check_each-Lasting : (ts : List Trade) (n : ℕ) → Keeps Lasting (risk_check_each env ts n)
  unfolding risk_check_each
  risk_check_each-Lasting [] n = search trade_rules
  risk_check_each-Lasting (t ∷ ts) n =
      search (trade_rules, risk_check-Lasting, risk_check_each-Lasting ts) depth 20

  risk_check_open_trades-Lasting : Keeps Lasting (risk_check_open_trades env)
  unfolding risk_check_open_trades
  risk_check_open_trades-Lasting = search (trade_rules, risk_check_each-Lasting)

  liquidate_others-Lasting :
      (target : String) (fill : Bool) (ts : List Trade)
      → Keeps Lasting (liquidate_others env target fill ts)
  unfolding liquidate_others
  liquidate_others-Lasting target fill [] = search trade_rules
  liquidate_others-Lasting target fill (t ∷ ts) =
      let rest = liquidate_others-Lasting target fill ts in
      Keeps-if Lasting-preorder (kept env target fill t.ticker) _ _ rest (
        Keeps-bind Lasting-preorder (close_position env t) _ (close_position-Lasting t)
          (λ closed. rest))

  replace-Lasting :
      (t : Trade) (ticker : String) (allocation : ℕ) (weight : ℕ × ℕ)
      → Keeps Lasting (replace env t ticker allocation weight)
  replace-Lasting t ticker allocation weight =
      search (trade_rules, close_position-Lasting, open_position-Lasting) depth 20

  set_target-Lasting :
      (target : String) (allocation : ℕ) (weight : ℕ × ℕ) (held : Option Trade)
      → Keeps Lasting (set_target env target allocation weight held)
  set_target-Lasting target allocation weight none = search (trade_rules, open_position-Lasting)
  set_target-Lasting target allocation weight (some t) =
      search (trade_rules, replace-Lasting) depth 20

  refill_if-Lasting :
      (t : Trade) (allocation : ℕ) (rest : ℕ × ℕ) (live : Option ℕ)
      → Keeps Lasting (refill_if env t allocation rest live)
  refill_if-Lasting t allocation rest none = search trade_rules
  refill_if-Lasting t allocation rest (some live) = search (trade_rules, replace-Lasting) depth 20

  set_remainder-Lasting :
      (allocation : ℕ) (rest : ℕ × ℕ) (held : Option Trade)
      → Keeps Lasting (set_remainder env allocation rest held)
  set_remainder-Lasting allocation rest none = search (trade_rules, open_position-Lasting)
  set_remainder-Lasting allocation rest (some t) = search (trade_rules, refill_if-Lasting)

  rebalance-Lasting :
      (allocation : ℕ) (before : Holding) (target : String) (weight : ℕ × ℕ)
      → Keeps Lasting (rebalance env allocation before target weight)
  rebalance-Lasting allocation before target weight =
      search
        (
          trade_rules, liquidate_others-Lasting, set_target-Lasting, set_remainder-Lasting,
          derive_state-Lasting,
        )
        depth 30

  if_scored-Lasting :
      (scores : Scores) (k : Call (Unit {0})) → Keeps Lasting k → Keeps Lasting (if_scored scores k)
  if_scored-Lasting [] k h = search trade_rules
  if_scored-Lasting (s ∷ ss) k h = h

  module _ (sqrt : ℕ → ℕ) (bars : Client → String → ℕ → Result (List ℕ)) where
    do_rebalance-Lasting : (allocation : ℕ) → Keeps Lasting (do_rebalance env sqrt bars allocation)
    unfolding do_rebalance
    do_rebalance-Lasting allocation = search (
      trade_rules, derive_state-Lasting, evaluate_sector_signal-Lasting, if_scored-Lasting,
      rebalance-Lasting,
    )

    cycle-Lasting : (allocation : ℕ) → Keeps Lasting (cycle env sqrt bars allocation)
    unfolding cycle
    cycle-Lasting allocation =
        search (trade_rules, risk_check_open_trades-Lasting, do_rebalance-Lasting)

    pub main-Lasting : Keeps Lasting (main env sqrt bars)
    unfolding main
    main-Lasting = run_main-Lasting env strategy_id (cycle env sqrt bars) cycle-Lasting
