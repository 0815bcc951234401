-- ===== src/Value/Run/Exits.antt =====
-- strategy_value.py: the exits of strategy 2, for a relation between worlds that looks
-- at paper_trades alone and that closing a trade keeps.
use blackhole_network.Base.{ℕ, String, Bool, Option, none, some, List, [], ◌∷◌, ◌≡◌}
use blackhole_network.Core.Types.{Trade, ExitReason}
use blackhole_network.Core.World.{World, Env, Client, Result}
use blackhole_network.Core.Monad.Keeps.{IsPreorder, Keeps, Keeps-bind}
use blackhole_network.Core.Trades.{close_trade}
use blackhole_network.Strategies.Entry.Steps.{step_rules}
use blackhole_network.Value.Screen.{Answer}
use blackhole_network.Value.Company.{Rules, Endpoint}
use blackhole_network.Value.Company.Keeps.{get_row-Keeps}
use blackhole_network.Value.Run.{
  fill_of, exit_at_market, check_price, check_exit, exit_each, exit_held, process_exits,
}

module _ {R : World → World → Type 0} (o : IsPreorder R)
    (same : (w w' : World) → w'.trades ≡ w.trades → R w w') (env : Env)
    (closes : (id exit : ℕ) (why : ExitReason) (order : Option String)
      → Keeps R (close_trade env id exit why order))
    (has_key : Bool) (fmp : Endpoint → ℕ → Answer) (bars : Client → String → Result (List ℕ))
    (rules : Rules) where
  fill_of-Keeps :
      (client : Client) (t : Trade) (p : Option ℕ)
      → Keeps R (fill_of env has_key fmp bars rules client t p)
  fill_of-Keeps client t none = search step_rules
  fill_of-Keeps client t (some p) = search step_rules

  exit_at_market-Keeps :
      (t : Trade) (why : ExitReason) → Keeps R (exit_at_market env has_key fmp bars rules t why)
  unfolding exit_at_market
  exit_at_market-Keeps t why = search (step_rules, fill_of-Keeps) depth 20

  check_price-Keeps :
      (t : Trade) (price : Option ℕ) → Keeps R (check_price env has_key fmp bars rules t price)
  check_price-Keeps t none = search step_rules
  check_price-Keeps t (some current) =
      search (step_rules, exit_at_market-Keeps, get_row-Keeps) depth 20

  check_exit-Keeps :
      (client : Client) (t : Trade) → Keeps R (check_exit env has_key fmp bars rules client t)
  check_exit-Keeps client t = search (step_rules, exit_at_market-Keeps, check_price-Keeps) depth 20

  exit_each-Keeps :
      (client : Client) (ts : List Trade) → Keeps R (exit_each env has_key fmp bars rules client ts)
  unfolding exit_each
  exit_each-Keeps client [] = search step_rules
  exit_each-Keeps client (t ∷ ts) =
      let rest = exit_each-Keeps client ts in
      Keeps-bind o (check_exit env has_key fmp bars rules client t) _ (check_exit-Keeps client t)
        (λ done. rest)

  exit_held-Keeps : (ts : List Trade) → Keeps R (exit_held env has_key fmp bars rules ts)
  exit_held-Keeps [] = search step_rules
  exit_held-Keeps (t ∷ ts) = search (step_rules, exit_each-Keeps)

  pub process_exits-Keeps : Keeps R (process_exits env has_key fmp bars rules)
  unfolding process_exits
  process_exits-Keeps = search (step_rules, exit_held-Keeps)
