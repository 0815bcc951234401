-- ===== src/Core/Orders/Count.antt =====
-- trading_core.py: placing an order adds one open trade at most, and what surrounds it adds none.
use blackhole_network.Base.{ℕ, String, Bool, Option, none, some, refl, arith}
use blackhole_network.Core.Types.{Action, Message, Blocked}
use blackhole_network.Core.World.{Env, Client, OrderRequest}
use blackhole_network.Core.Monad.Keeps.{Keeps, keeps_rules}
use blackhole_network.Core.Clients.Frame.{
  get_alpaca-SameTables, get_strategy_alpaca-SameTables, load_env-SameTables,
}
use blackhole_network.Core.Clients.{get_alpaca, get_strategy_alpaca, load_env}
use blackhole_network.Core.Gate.{should_run}
use blackhole_network.Core.Gate.Frame.{should_run-SameTables, get_strategy_meta-SameTables}
use blackhole_network.Core.Lifecycle.{get_strategy_meta}
use blackhole_network.Core.Trades.{Ticket, log_signal}
use blackhole_network.Core.Trades.Count.{
  NoMore, NoMore-preorder, NoMore-of_same, NoMore-of_tables, GrowsBy, GrowsBy-after, GrowsBy-then,
  open_trade-GrowsBy,
}
use blackhole_network.Core.Orders.{submit_order, place_order, refuse_if}

module _ (sid : String) where
  pub log_signal-NoMore :
      (who ticker : String) (side : Action) (why : Message) (acted : Bool)
      → Keeps (NoMore sid) (log_signal who ticker side why acted)
  unfolding log_signal
  log_signal-NoMore who ticker side why acted =
      NoMore-of_same sid (log_signal who ticker side why acted) (λ w. ground arith)

  get_strategy_meta-NoMore : (who : String) → Keeps (NoMore sid) (get_strategy_meta who)
  get_strategy_meta-NoMore who = NoMore-of_tables sid _ (get_strategy_meta-SameTables who)

  load_env-NoMore : Keeps (NoMore sid) load_env
  load_env-NoMore = NoMore-of_tables sid load_env load_env-SameTables

  refuse_if-NoMore : (why : Option Blocked) → Keeps (NoMore sid) (refuse_if why)
  refuse_if-NoMore none = search (keeps_rules, NoMore-preorder)
  refuse_if-NoMore (some why) = search (keeps_rules, NoMore-preorder)

  module _ (env : Env) where
    should_run-NoMore :
        (who : String) (market : Bool) → Keeps (NoMore sid) (should_run env who market)
    should_run-NoMore who market = NoMore-of_tables sid _ (should_run-SameTables env who market)

    pub get_alpaca-NoMore : Keeps (NoMore sid) (get_alpaca env)
    get_alpaca-NoMore = NoMore-of_tables sid _ (get_alpaca-SameTables env)

    get_strategy_alpaca-NoMore : (who : String) → Keeps (NoMore sid) (get_strategy_alpaca env who)
    get_strategy_alpaca-NoMore who = NoMore-of_tables sid _ (get_strategy_alpaca-SameTables env who)

    pub submit_order-NoMore :
        (client : Client) (request : OrderRequest)
        → Keeps (NoMore sid) (submit_order env client request)
    unfolding submit_order
    submit_order-NoMore client request = NoMore-of_same sid _ (λ w. refl)

    pub place_order-GrowsBy :
        (t : Ticket) (limited : Bool) (limit : Option ℕ)
        → GrowsBy sid 1 (place_order env t limited limit)
    unfolding place_order
    place_order-GrowsBy t limited limit =
        search
          (
            keeps_rules, NoMore-preorder, GrowsBy-after, should_run-NoMore, refuse_if-NoMore,
            get_strategy_meta-NoMore, load_env-NoMore, get_strategy_alpaca-NoMore,
            submit_order-NoMore, GrowsBy-then, open_trade-GrowsBy,
          )
          depth 30
