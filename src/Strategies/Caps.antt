-- ===== src/Strategies/Caps.antt =====
-- strategy_momentum.py and strategy_value.py: the number of open positions.
use blackhole_network.Base.{ℕ, String, Bool, List, ◌≤◌, max_of}
use blackhole_network.Core.World.{World, Env, Client, Result}
use blackhole_network.Core.Trades.Count.{open_count}
use blackhole_network.Momentum.Bars.{Bar, Rules}
use blackhole_network.Momentum.Run as Momentum
use blackhole_network.Momentum.Run.Entries as MomentumEntries
use blackhole_network.Value.Screen.{Answer}
use blackhole_network.Value.Run as Value
use blackhole_network.Value.Company.{Endpoint, Rules as ValueRules}
use blackhole_network.Value.Run.Cap as ValueCap

-- Whatever is answered and wherever it fails, a run of strategy 2 leaves the strategy with at most
-- max_positions open trades, or with no more than it had before, and a run of strategy 4 leaves it
-- with no more open trades than it had before, since its entries raise.
pub every_main-max_positions :
    (env : Env) (bars : Client → String → Result (List Bar)) (crosses : Rules) (has_key : Bool)
    (fmp : Endpoint → ℕ → Answer) (closes : Client → String → Result (List ℕ))
    (figures : ValueRules) (w : World)
    → (open_count Momentum.strategy_id (Momentum.main env bars crosses w).1
        ≤ open_count Momentum.strategy_id w)
      × (open_count Value.strategy_id (Value.main env has_key fmp closes figures w).1
          ≤ max_of (open_count Value.strategy_id w) figures.max_positions)
every_main-max_positions env bars crosses has_key fmp closes figures w = (
  ((MomentumEntries.main-NoMore env bars crosses).at w).le,
  ((ValueCap.main-Capped env has_key fmp closes figures).at w).le,
)
