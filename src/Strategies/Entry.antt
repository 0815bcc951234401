-- ===== src/Strategies/Entry.antt =====
-- scripts/trading/strategy_value.py: the order of an entry, with `except RuntimeError`; and `main` up to the
-- allocation, as strategy_momentum.py and strategy_value.py of scripts/trading/ have it.
pub mod Steps
pub mod Keeps
pub mod Slots
use blackhole_network.Base.{
  ℕ, String, Bool, true, false, Option, none, some, map, ◌==◌, if◌then◌else◌,
}
use blackhole_network.Core.Types.{Blocked}
use blackhole_network.Core.World.{
  Env, Error, value_error, integrity_error, division_by_zero, attribute_error, broker_error,
  no_strategy_client, type_error,
}
use blackhole_network.Core.Monad.{Call, pass, raise, write, try_except, ◌>>=◌, ◌>>◌}
use blackhole_network.Core.Lifecycle.{get_strategy_meta}
use blackhole_network.Core.Rules.{get_strategy_rules}
use blackhole_network.Core.Gate.{should_run}
use blackhole_network.Core.Trades.{Ticket}
use blackhole_network.Core.Orders.{place_order}
use blackhole_network.Nasdaq.Run.{unacted}

-- `except RuntimeError`: what trading_core raises itself, but for its ValueError.
abbrev pub is_runtime_error : Error → Bool
is_runtime_error value_error = false
is_runtime_error integrity_error = false
is_runtime_error division_by_zero = false
is_runtime_error attribute_error = false
is_runtime_error (broker_error n) = false
is_runtime_error (no_strategy_client sid) = false
is_runtime_error type_error = false
is_runtime_error _ = true

module _ (env : Env) where
  -- Whether the order was placed; a refusal takes back that the signal was acted on.
  pub order_or_log : Ticket → ℕ → Call Bool
  order_or_log t signal_id = try_except (place_order env t false none >>= λ placed. pass true) (λ e.
      if is_runtime_error e
      then (write (λ w. record w { signals = map (unacted signal_id) w.signals }) >> pass false)
      else raise e)

  module _ (sid : String) (body : ℕ → Call ℕ) where
    abbrev with_rules : Option Blocked → Call ℕ
    with_rules (some why) = pass 0
    with_rules none = do
      block ← get_strategy_rules sid
      meta ← get_strategy_meta sid
      if meta.capital_allocation == 0 then pass 1 else body meta.capital_allocation

    -- `main`, with `body` for what it does with an allocation
    pub run_with_rules : Call ℕ
    run_with_rules = should_run env sid false >>= with_rules
