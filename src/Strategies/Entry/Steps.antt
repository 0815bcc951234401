-- ===== src/Strategies/Entry/Steps.antt =====
-- The calls of trading_core.py around a trade that do not write paper_trades, for a relation between
-- worlds that looks at paper_trades alone.
use blackhole_network.Base.{String, Bool, Option, ◌≡◌, refl, arith}
use blackhole_network.Core.Types.{Action, Message}
use blackhole_network.Core.World.{World, Env, Client, OrderRequest}
use blackhole_network.Core.Monad.{Call}
use blackhole_network.Core.Monad.Keeps.{IsPreorder, Keeps, Keeps-read, keeps_rules}
use blackhole_network.Core.Clients.{get_alpaca, load_env}
use blackhole_network.Core.Clients.Frame.{SameTables, get_alpaca-SameTables, load_env-SameTables}
use blackhole_network.Core.Trades.{log_signal, get_open_trades}
use blackhole_network.Core.Orders.{submit_order}

module _ {R : World → World → Type 0} (o : IsPreorder R)
    (same : (w w' : World) → w'.trades ≡ w.trades → R w w') where
  of_tables : {A : Type 0} (m : Call A) → Keeps SameTables m → Keeps R m
  of_tables m h = record { at = λ w. same w (m w).1 (h.at w).trades }

  pub load_env-Keeps : Keeps R load_env
  load_env-Keeps = of_tables load_env load_env-SameTables

  pub log_signal-Keeps :
      (sid ticker : String) (side : Action) (why : Message) (acted : Bool)
      → Keeps R (log_signal sid ticker side why acted)
  unfolding log_signal
  log_signal-Keeps sid ticker side why acted = record { at = λ w. same w _ (ground arith) }

  pub get_open_trades-Keeps : (sid : Option String) → Keeps R (get_open_trades sid)
  unfolding get_open_trades
  get_open_trades-Keeps sid = Keeps-read o _

  pub get_alpaca-Keeps : (env : Env) → Keeps R (get_alpaca env)
  get_alpaca-Keeps env = of_tables (get_alpaca env) (get_alpaca-SameTables env)

  pub submit_order-Keeps :
      (env : Env) (client : Client) (request : OrderRequest)
      → Keeps R (submit_order env client request)
  unfolding submit_order
  submit_order-Keeps env client request = record { at = λ w. same w _ refl }

pub ruleset step_rules = (
  keeps_rules, load_env-Keeps, log_signal-Keeps, get_open_trades-Keeps, get_alpaca-Keeps,
  submit_order-Keeps,
)
