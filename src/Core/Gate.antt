-- ===== src/Core/Gate.antt =====
-- trading_core.py: `should_run`, the gate before each order.
pub mod Frame
pub mod Allowed
pub mod Passes
pub mod Halted
use blackhole_network.Base.{String, Bool, true, false, Option, none, some, if◌then◌else◌}
use blackhole_network.Core.Types.{
  Status, BreakerType, Blocked, system_halted, disabled_in_rules, closed_market, strategy_status,
  breaker_tripped,
}
use blackhole_network.Core.World.{Env}
use blackhole_network.Core.Monad.{Call, pass, answer, ◌>>=◌}
use blackhole_network.Core.Rules.{is_strategy_enabled}
use blackhole_network.Core.Lifecycle.{is_active, get_strategy_meta, is_system_halted}
use blackhole_network.Core.Breakers.{check_circuit_breakers}

module _ (env : Env) where
  abbrev gate_market : Bool → Call (Option Blocked)
  gate_market false = pass none
  gate_market true = do
    is_open ← answer env.market_is_open
    pass (if is_open then none else some closed_market)

  abbrev gate_breaker : Bool → Option BreakerType → Call (Option Blocked)
  gate_breaker market (some b) = pass (some (breaker_tripped b))
  gate_breaker market none = gate_market market

  unfoldable pub gate_status : String → Bool → Status → Call (Option Blocked)
  gate_status sid market st =
      if is_active st
      then check_circuit_breakers env sid >>= gate_breaker market
      else pass (some (strategy_status st))

  unfoldable pub gate_enabled : String → Bool → Bool → Call (Option Blocked)
  gate_enabled sid market false = pass (some disabled_in_rules)
  gate_enabled sid market true = do meta ← get_strategy_meta sid; gate_status sid market meta.status

  unfoldable pub gate_system : String → Bool → Bool → Call (Option Blocked)
  gate_system sid market true = pass (some system_halted)
  gate_system sid market false = is_strategy_enabled sid >>= gate_enabled sid market

  -- `none` is (True, ""); `some` holds the reason of a refusal.
  unfoldable pub should_run : String → Bool → Call (Option Blocked)
  should_run sid requires_market_open = is_system_halted >>= gate_system sid requires_market_open
