-- ===== src/Core/Orders/Refusal.antt =====
-- trading_core.py: an order that the gate does not let through reaches no broker.
use blackhole_network.Base.{ℕ, Bool, false, Option, none, some, ◌≡◌, ◌≢◌, refl}
use blackhole_network.Core.Types.{Blocked}
use blackhole_network.Core.World.{World, Env, Result, ok, raised}
use blackhole_network.Core.Monad.Bind.{bind_ok, bind_raised}
use blackhole_network.Core.Clients.Frame.{SameTables}
use blackhole_network.Core.Gate.{should_run}
use blackhole_network.Core.Gate.Frame.{should_run-SameTables}
use blackhole_network.Core.Trades.{Ticket}
use blackhole_network.Core.Orders.{Placed, place_order}

module _ (env : Env) where
  -- Where the gate refuses or raises, `place_order` raises: no order is submitted, and no trade,
  -- signal or status changes.
  pub place_order-refused :
      (t : Ticket) (is_limit : Bool) (limit_price : Option ℕ) (w : World)
      → (should_run env t.strategy_id false w).0 ≢ ok none
      → SameTables w (place_order env t is_limit limit_price w).1
        × ((p : Placed) → (place_order env t is_limit limit_price w).0 ≢ ok p)
  unfolding place_order
  place_order-refused t is_limit limit_price w h = go (should_run env t.strategy_id false w).0 refl
    where
      go :
          (r : Result (Option Blocked))
          → (should_run env t.strategy_id false w).0 ≡ r
          → SameTables w (place_order env t is_limit limit_price w).1
            × ((p : Placed) → (place_order env t is_limit limit_price w).0 ≢ ok p)
      go (ok none) e = absurd (h e)
      go (ok (some why)) e =
          rw (bind_ok (should_run env t.strategy_id false) _ w e)
            ((should_run-SameTables env t.strategy_id false).at w, λ p k. absurd (cc k))
      go (raised x) e =
          rw (bind_raised (should_run env t.strategy_id false) _ w e)
            ((should_run-SameTables env t.strategy_id false).at w, λ p k. absurd (cc k))
