-- ===== src/Nasdaq/Run/Lasting.antt =====
-- strategy_nasdaq_long.py and strategy_nasdaq_short.py: what their shared calls do to paper_trades.
use blackhole_network.Base.{ℕ, map, String, Bool, false, Option, none, some, ◌≡◌, refl}
use blackhole_network.Core.Types.{Action, Message, Trade, Blocked, error}
use blackhole_network.Core.World.{World, Env, Client}
use blackhole_network.Core.Monad.{Call, write}
use blackhole_network.Core.Monad.Keeps.{IsPreorder, Keeps, keeps_rules}
use blackhole_network.Core.Clients.Frame.{SameTables}
use blackhole_network.Core.Gate.{should_run}
use blackhole_network.Core.Gate.Frame.{should_run-SameTables, get_strategy_meta-SameTables}
use blackhole_network.Core.Lifecycle.{get_strategy_meta, update_strategy_status}
use blackhole_network.Core.Trades.{update_trade}
use blackhole_network.Core.Trades.Lasting.{
  Lasting, Lasting-preorder, Lasting-of_rows, Lasting-of_same, close_trade-Lasting, write-Lasting,
}
use blackhole_network.Core.Orders.Lasting.{lasting_rules}
use blackhole_network.Nasdaq.Risk.{
  RiskCheckResult, set_mark, persist_water_mark, evaluate_trade, close_with_alert,
}
use blackhole_network.Nasdaq.Run.{
  latest_price, get_live_price, submit_close, order_shares, gated, run_main, unacted,
}

pub persist_water_mark-Lasting : (id wm : ℕ) → Keeps Lasting (persist_water_mark id wm)
unfolding persist_water_mark
persist_water_mark-Lasting id wm = record {
  at = λ w.
      write-Lasting id (set_mark wm) (λ t. refl) (λ t p. p)
        (λ v. record v { trades = update_trade id (set_mark wm) v.trades }) (λ v. refl) w
        (λ t e c. (some wm, refl));
}

module _ (env : Env) where
  pub evaluate_trade-Lasting :
      (t : Trade) (price goal : ℕ) (persist : Bool)
      → Keeps Lasting (evaluate_trade env t price goal persist)
  unfolding evaluate_trade
  evaluate_trade-Lasting t price goal persist = search (lasting_rules, persist_water_mark-Lasting)

  pub close_with_alert-Lasting :
      (t : Trade) (exit : ℕ) (result : RiskCheckResult) (order : Option String)
      → Keeps Lasting (close_with_alert env t exit result order)
  unfolding close_with_alert
  close_with_alert-Lasting t exit result order = search (lasting_rules, close_trade-Lasting) depth 9

  latest_price-Lasting :
      (client : Client) (ticker : Option String) → Keeps Lasting (latest_price env client ticker)
  latest_price-Lasting client none = search lasting_rules
  latest_price-Lasting client (some ticker) = search lasting_rules

  pub get_live_price-Lasting : (ticker : Option String) → Keeps Lasting (get_live_price env ticker)
  unfolding get_live_price
  get_live_price-Lasting ticker = search (lasting_rules, latest_price-Lasting)

  pub submit_close-Lasting :
      (client : Client) (t : Trade) → Keeps Lasting (submit_close env client t)
  unfolding submit_close
  submit_close-Lasting client t = search lasting_rules

  module _ (sid : String) where
    undo-Lasting :
        (id : ℕ) → Keeps Lasting (write (λ w. record w { signals = map (unacted id) w.signals }))
    undo-Lasting id = Lasting-of_same _ (λ w. refl)

    pub order_shares-Lasting :
        (ticker : String) (side : Action) (why : Message) (price qty : ℕ)
        → Keeps Lasting (order_shares env sid ticker side why price qty)
    unfolding order_shares
    order_shares-Lasting ticker side why price qty = search (lasting_rules, undo-Lasting) depth 20

-- A relation that looks at paper_trades alone and that the cycle keeps, the run keeps.
module _ {R : World → World → Type 0} (o : IsPreorder R)
    (same : (w w' : World) → w'.trades ≡ w.trades → R w w') (env : Env) (sid : String)
    (cycle : ℕ → Call (Unit {0})) (k : (allocation : ℕ) → Keeps R (cycle allocation)) where
  of_tables : {A : Type 0} (m : Call A) → Keeps SameTables m → Keeps R m
  of_tables m h = record { at = λ w. same w (m w).1 (h.at w).trades }

  failed-Keeps : (why : Message) → Keeps R (update_strategy_status sid error why)
  unfolding update_strategy_status
  failed-Keeps why = record { at = λ w. same w _ refl }

  meta-Keeps : Keeps R (get_strategy_meta sid)
  meta-Keeps = of_tables _ (get_strategy_meta-SameTables sid)

  gated-Keeps : (why : Option Blocked) → Keeps R (gated env sid cycle why)
  gated-Keeps (some why) = search (keeps_rules, o)
  gated-Keeps none = search (keeps_rules, o, failed-Keeps, meta-Keeps, k) depth 20

  gate-Keeps : Keeps R (should_run env sid false)
  gate-Keeps = of_tables _ (should_run-SameTables env sid false)

  pub run_main-Keeps : Keeps R (run_main env sid cycle)
  unfolding run_main
  run_main-Keeps = search (keeps_rules, o, gate-Keeps, gated-Keeps)

pub run_main-Lasting :
    (env : Env) (sid : String) (cycle : ℕ → Call (Unit {0}))
    → ((allocation : ℕ) → Keeps Lasting (cycle allocation))
    → Keeps Lasting (run_main env sid cycle)
run_main-Lasting env sid cycle k = run_main-Keeps Lasting-preorder Lasting-of_rows env sid cycle k

pub ruleset trade_rules = (
  lasting_rules, persist_water_mark-Lasting, evaluate_trade-Lasting, close_with_alert-Lasting,
  close_trade-Lasting, get_live_price-Lasting, submit_close-Lasting, order_shares-Lasting,
)
