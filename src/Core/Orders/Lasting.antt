-- ===== src/Core/Orders/Lasting.antt =====
-- trading_core.py: what placing an order does to paper_trades.
use blackhole_network.Base.{ℕ, String, Bool, Option, none, some, refl, arith}
use blackhole_network.Core.Types.{Action, Message, Status, Blocked}
use blackhole_network.Core.World.{Env, Client, OrderRequest}
use blackhole_network.Core.Monad.Keeps.{Keeps, keeps_rules}
use blackhole_network.Core.Clients.Frame.{
  get_alpaca-SameTables, get_strategy_alpaca-SameTables, load_env-SameTables,
}
use blackhole_network.Core.Clients.{get_alpaca, get_strategy_alpaca, load_env}
use blackhole_network.Core.Gate.{should_run}
use blackhole_network.Core.Gate.Frame.{should_run-SameTables, get_strategy_meta-SameTables}
use blackhole_network.Core.Lifecycle.{get_strategy_meta, update_strategy_status}
use blackhole_network.Core.Breakers.{send_alert}
use blackhole_network.Core.Types.{Severity}
use blackhole_network.Core.Trades.{Ticket, log_signal, get_open_trades}
use blackhole_network.Core.Trades.Lasting.{
  Lasting, Lasting-preorder, Lasting-of_same, Lasting-of_tables, open_trade-Lasting,
}
use blackhole_network.Core.Orders.{submit_order, place_order, refuse_if}

pub update_strategy_status-Lasting :
    (sid : String) (st : Status) (why : Message) → Keeps Lasting (update_strategy_status sid st why)
unfolding update_strategy_status
update_strategy_status-Lasting sid st why = Lasting-of_same _ (λ w. refl)

pub send_alert-Lasting : (s : Severity) (why : Message) → Keeps Lasting (send_alert s why)
unfolding send_alert
send_alert-Lasting s why = Lasting-of_same _ (λ w. refl)

pub log_signal-Lasting :
    (sid ticker : String) (side : Action) (why : Message) (acted : Bool)
    → Keeps Lasting (log_signal sid ticker side why acted)
unfolding log_signal
log_signal-Lasting sid ticker side why acted =
    Lasting-of_same (log_signal sid ticker side why acted) (λ w. ground arith)

pub get_open_trades-Lasting : (sid : Option String) → Keeps Lasting (get_open_trades sid)
unfolding get_open_trades
get_open_trades-Lasting sid = search (keeps_rules, Lasting-preorder)

pub get_strategy_meta-Lasting : (sid : String) → Keeps Lasting (get_strategy_meta sid)
get_strategy_meta-Lasting sid = Lasting-of_tables _ (get_strategy_meta-SameTables sid)

module _ (env : Env) where
  pub should_run-Lasting :
      (sid : String) (market : Bool) → Keeps Lasting (should_run env sid market)
  should_run-Lasting sid market = Lasting-of_tables _ (should_run-SameTables env sid market)

  pub get_alpaca-Lasting : Keeps Lasting (get_alpaca env)
  get_alpaca-Lasting = Lasting-of_tables _ (get_alpaca-SameTables env)

  pub get_strategy_alpaca-Lasting : (sid : String) → Keeps Lasting (get_strategy_alpaca env sid)
  get_strategy_alpaca-Lasting sid = Lasting-of_tables _ (get_strategy_alpaca-SameTables env sid)

  pub submit_order-Lasting :
      (client : Client) (request : OrderRequest) → Keeps Lasting (submit_order env client request)
  unfolding submit_order
  submit_order-Lasting client request = Lasting-of_same _ (λ w. refl)

  load_env-Lasting : Keeps Lasting load_env
  load_env-Lasting = Lasting-of_tables load_env load_env-SameTables

  refuse_if-Lasting : (why : Option Blocked) → Keeps Lasting (refuse_if why)
  refuse_if-Lasting none = search (keeps_rules, Lasting-preorder)
  refuse_if-Lasting (some why) = search (keeps_rules, Lasting-preorder)

  pub place_order-Lasting :
      (t : Ticket) (limited : Bool) (limit : Option ℕ)
      → Keeps Lasting (place_order env t limited limit)
  unfolding place_order
  place_order-Lasting t limited limit =
      search
        (
          keeps_rules, Lasting-preorder, should_run-Lasting, refuse_if-Lasting,
          get_strategy_meta-Lasting, load_env-Lasting, get_strategy_alpaca-Lasting,
          submit_order-Lasting, open_trade-Lasting,
        )
        depth 30

pub ruleset lasting_rules = (
  keeps_rules, Lasting-preorder, update_strategy_status-Lasting, send_alert-Lasting,
  log_signal-Lasting, get_open_trades-Lasting, get_strategy_meta-Lasting, should_run-Lasting,
  get_alpaca-Lasting, get_strategy_alpaca-Lasting, submit_order-Lasting, place_order-Lasting,
)
