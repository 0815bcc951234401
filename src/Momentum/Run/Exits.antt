-- ===== src/Momentum/Run/Exits.antt =====
-- strategy_momentum.py: the exits and the scan of strategy 4, for a relation between worlds that looks
-- at paper_trades alone and that closing a trade and moving its mark keep.
use blackhole_network.Base.{ℕ, String, Option, none, some, List, [], ◌∷◌, ◌≡◌}
use blackhole_network.Core.Types.{Trade, ExitReason}
use blackhole_network.Core.World.{World, Env, Client, Result}
use blackhole_network.Core.Monad.Keeps.{IsPreorder, Keeps, Keeps-bind}
use blackhole_network.Core.Trades.{close_trade}
use blackhole_network.Nasdaq.Risk.{persist_water_mark}
use blackhole_network.Strategies.Entry.Steps.{step_rules}
use blackhole_network.Momentum.Bars.{Bar, Rules, Metrics}
use blackhole_network.Momentum.Run.{
  Candidate, fetch_daily_bars, exit_position, trail, check_exit, exit_each, process_exits, consider,
  scan,
}

module _ {R : World → World → Type 0} (o : IsPreorder R)
    (same : (w w' : World) → w'.trades ≡ w.trades → R w w') (env : Env)
    (closes : (id exit : ℕ) (why : ExitReason) (order : Option String)
      → Keeps R (close_trade env id exit why order))
    (marks : (id wm : ℕ) → Keeps R (persist_water_mark id wm))
    (bars : Client → String → Result (List Bar)) (rules : Rules) where
  fetch_daily_bars-Keeps : (ticker : String) → Keeps R (fetch_daily_bars env bars rules ticker)
  unfolding fetch_daily_bars
  fetch_daily_bars-Keeps ticker = search step_rules depth 20

  exit_position-Keeps :
      (t : Trade) (price : ℕ) (why : ExitReason)
      → Keeps R (exit_position env bars rules t price why)
  unfolding exit_position
  exit_position-Keeps t price why = search step_rules depth 20

  trail-Keeps :
      (t : Trade) (close : ℕ) (highest : Option ℕ) → Keeps R (trail env bars rules t close highest)
  trail-Keeps t close none = search step_rules
  trail-Keeps t close (some highest) = search (step_rules, exit_position-Keeps)

  check_exit-Keeps : (t : Trade) (bs : Option (List Bar)) → Keeps R (check_exit env bars rules t bs)
  check_exit-Keeps t none = search step_rules
  check_exit-Keeps t (some bs) = search (step_rules, exit_position-Keeps, trail-Keeps)

  exit_each-Keeps : (ts : List Trade) → Keeps R (exit_each env bars rules ts)
  unfolding exit_each
  exit_each-Keeps [] = search step_rules
  exit_each-Keeps (t ∷ ts) =
      let rest = exit_each-Keeps ts in
      Keeps-bind o (fetch_daily_bars env bars rules t.ticker) _ (fetch_daily_bars-Keeps t.ticker)
        λ bs. Keeps-bind o (check_exit env bars rules t bs) _ (check_exit-Keeps t bs) (λ done. rest)

  pub process_exits-Keeps : Keeps R (process_exits env bars rules)
  unfolding process_exits
  process_exits-Keeps = search (step_rules, exit_each-Keeps)

  consider-Keeps :
      (ticker : String) (found : List Candidate) (m : Option Metrics)
      → Keeps R (consider env bars rules ticker found m)
  consider-Keeps ticker found none = search step_rules
  consider-Keeps ticker found (some m) = search step_rules depth 20

  pub scan-Keeps :
      (held tickers : List String) (found : List Candidate)
      → Keeps R (scan env bars rules held tickers found)
  unfolding scan
  scan-Keeps held [] found = search step_rules
  scan-Keeps held (ticker ∷ tickers) found =
      search (step_rules, fetch_daily_bars-Keeps, consider-Keeps, scan-Keeps held tickers) depth 20
