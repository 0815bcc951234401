-- ===== src/Core/Gate/Frame.antt =====
-- trading_core.py: asking the gate changes no table and asks nothing of the broker that changes anything.
use blackhole_network.Base.{String, Bool, true, false, Option, none, some}
use blackhole_network.Core.Types.{Status, BreakerType}
use blackhole_network.Core.World.{Env, unknown_strategy}
use blackhole_network.Core.Monad.Keeps.{Keeps, Keeps-or_raise, keeps_rules}
use blackhole_network.Core.Clients.Frame.{
  SameTables, SameTables-preorder, get_strategy_rules-SameTables,
}
use blackhole_network.Core.Rules.{is_strategy_enabled}
use blackhole_network.Core.Lifecycle.{get_strategy_meta, is_system_halted, find_strategy}
use blackhole_network.Core.Breakers.{check_circuit_breakers}
use blackhole_network.Core.Gate.{
  gate_market, gate_breaker, gate_status, gate_enabled, gate_system, should_run,
}

pub get_strategy_meta-SameTables : (sid : String) → Keeps SameTables (get_strategy_meta sid)
unfolding get_strategy_meta
get_strategy_meta-SameTables sid = record {
  at = λ w.
      (Keeps-or_raise SameTables-preorder (find_strategy sid w.strategies)
          (unknown_strategy sid)).at
        w;
}

is_system_halted-SameTables : Keeps SameTables is_system_halted
unfolding is_system_halted
is_system_halted-SameTables =
    search (keeps_rules, SameTables-preorder, get_strategy_meta-SameTables)

is_strategy_enabled-SameTables : (sid : String) → Keeps SameTables (is_strategy_enabled sid)
unfolding is_strategy_enabled
is_strategy_enabled-SameTables sid =
    search (keeps_rules, SameTables-preorder, get_strategy_rules-SameTables)

module _ (env : Env) where
  check_circuit_breakers-SameTables :
      (sid : String) → Keeps SameTables (check_circuit_breakers env sid)
  unfolding check_circuit_breakers
  check_circuit_breakers-SameTables sid =
      search (keeps_rules, SameTables-preorder, get_strategy_meta-SameTables) depth 9

  gate_market-SameTables : (market : Bool) → Keeps SameTables (gate_market env market)
  gate_market-SameTables true = search (keeps_rules, SameTables-preorder)
  gate_market-SameTables false = search (keeps_rules, SameTables-preorder)

  gate_breaker-SameTables :
      (market : Bool) (b : Option BreakerType) → Keeps SameTables (gate_breaker env market b)
  gate_breaker-SameTables market none = gate_market-SameTables market
  gate_breaker-SameTables market (some b) = search (keeps_rules, SameTables-preorder)

  gate_status-SameTables :
      (sid : String) (market : Bool) (st : Status)
      → Keeps SameTables (gate_status env sid market st)
  unfolding gate_status
  gate_status-SameTables sid market st =
      search
        (
          keeps_rules, SameTables-preorder, check_circuit_breakers-SameTables,
          gate_breaker-SameTables,
        )
        depth 9

  gate_enabled-SameTables :
      (sid : String) (market b : Bool) → Keeps SameTables (gate_enabled env sid market b)
  unfolding gate_enabled
  gate_enabled-SameTables sid market true =
      search
        (keeps_rules, SameTables-preorder, get_strategy_meta-SameTables, gate_status-SameTables)
  gate_enabled-SameTables sid market false = search (keeps_rules, SameTables-preorder)

  gate_system-SameTables :
      (sid : String) (market b : Bool) → Keeps SameTables (gate_system env sid market b)
  unfolding gate_system
  gate_system-SameTables sid market true = search (keeps_rules, SameTables-preorder)
  gate_system-SameTables sid market false =
      search
        (keeps_rules, SameTables-preorder, is_strategy_enabled-SameTables, gate_enabled-SameTables)

  pub should_run-SameTables :
      (sid : String) (market : Bool) → Keeps SameTables (should_run env sid market)
  unfolding should_run
  should_run-SameTables sid market =
      search (keeps_rules, SameTables-preorder, is_system_halted-SameTables, gate_system-SameTables)
