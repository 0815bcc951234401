-- ===== src/Strategies/Entry/Keeps.antt =====
-- What an entry and a run of strategies 2 and 4 keep.
use blackhole_network.Base.{ℕ, String, false, Option, none, some, ◌≡◌, refl, map}
use blackhole_network.Core.Types.{Message, Blocked, error}
use blackhole_network.Core.World.{World, Env}
use blackhole_network.Core.Monad.{Call, write}
use blackhole_network.Core.Monad.Keeps.{IsPreorder, Keeps, keeps_rules}
use blackhole_network.Core.Clients.Frame.{SameTables, get_strategy_rules-SameTables}
use blackhole_network.Core.Gate.{should_run}
use blackhole_network.Core.Gate.Frame.{should_run-SameTables, get_strategy_meta-SameTables}
use blackhole_network.Core.Lifecycle.{get_strategy_meta, update_strategy_status}
use blackhole_network.Core.Rules.{get_strategy_rules}
use blackhole_network.Core.Trades.{Ticket}
use blackhole_network.Core.Trades.Lasting.{Lasting, Lasting-of_same}
use blackhole_network.Nasdaq.Run.{unacted, guarded}
use blackhole_network.Nasdaq.Run.Lasting.{trade_rules}
use blackhole_network.Strategies.Entry.{order_or_log, with_rules, run_with_rules}

undo-Lasting :
    (id : ℕ) → Keeps Lasting (write (λ w. record w { signals = map (unacted id) w.signals }))
undo-Lasting id = Lasting-of_same _ (λ w. refl)

pub order_or_log-Lasting : (env : Env) (t : Ticket) (id : ℕ) → Keeps Lasting (order_or_log env t id)
unfolding order_or_log
order_or_log-Lasting env t id = search (trade_rules, undo-Lasting) depth 20

-- For a relation that looks at paper_trades alone.
module _ {R : World → World → Type 0} (o : IsPreorder R)
    (same : (w w' : World) → w'.trades ≡ w.trades → R w w') (env : Env) (sid : String) where
  of_tables : {A : Type 0} (m : Call A) → Keeps SameTables m → Keeps R m
  of_tables m h = record { at = λ w. same w (m w).1 (h.at w).trades }

  pub in_error-Keeps : (why : Message) → Keeps R (update_strategy_status sid error why)
  unfolding update_strategy_status
  in_error-Keeps why = record { at = λ w. same w _ refl }

  pub guarded-Keeps :
      (cycle : ℕ → Call (Unit {0}))
      → ((allocation : ℕ) → Keeps R (cycle allocation))
      → (allocation : ℕ) → Keeps R (guarded env sid cycle allocation)
  guarded-Keeps cycle k allocation = search (keeps_rules, o, in_error-Keeps, k) depth 20

  module _ (body : ℕ → Call ℕ) (k : (allocation : ℕ) → Keeps R (body allocation)) where
    rules-Keeps : Keeps R (get_strategy_rules sid)
    rules-Keeps = of_tables _ (get_strategy_rules-SameTables sid)

    meta-Keeps : Keeps R (get_strategy_meta sid)
    meta-Keeps = of_tables _ (get_strategy_meta-SameTables sid)

    with_rules-Keeps : (why : Option Blocked) → Keeps R (with_rules env sid body why)
    with_rules-Keeps (some why) = search (keeps_rules, o)
    with_rules-Keeps none = search (keeps_rules, o, rules-Keeps, meta-Keeps, k) depth 20

    gate-Keeps : Keeps R (should_run env sid false)
    gate-Keeps = of_tables _ (should_run-SameTables env sid false)

    pub run_with_rules-Keeps : Keeps R (run_with_rules env sid body)
    unfolding run_with_rules
    run_with_rules-Keeps = search (keeps_rules, o, gate-Keeps, with_rules-Keeps)
