-- ===== src/Momentum/Run/Entries.antt =====
-- strategy_momentum.py: the entries and a run of strategy 4, which open nothing.
use blackhole_network.Base.{ℕ, String, Option, List, [], ◌∷◌, ◌≡◌}
use blackhole_network.Core.Types.{Trade, ExitReason}
use blackhole_network.Core.World.{World, Env, Client, Result}
use blackhole_network.Core.Monad.Keeps.{IsPreorder, Keeps, Keeps-bind}
use blackhole_network.Core.Trades.{close_trade}
use blackhole_network.Core.Trades.Count.{
  NoMore, NoMore-preorder, NoMore-of_rows, open-update, close_trade-NoMore,
}
use blackhole_network.Core.Trades.Lasting.{
  Lasting, Lasting-preorder, Lasting-of_rows, close_trade-Lasting,
}
use blackhole_network.Nasdaq.Risk.{set_mark, persist_water_mark}
use blackhole_network.Nasdaq.Run.{guarded}
use blackhole_network.Nasdaq.Run.Lasting.{persist_water_mark-Lasting}
use blackhole_network.Strategies.Entry.Steps.{step_rules}
use blackhole_network.Strategies.Entry.Keeps.{guarded-Keeps, run_with_rules-Keeps}
use blackhole_network.Momentum.Bars.{Bar, Rules}
use blackhole_network.Momentum.Run.Exits.{process_exits-Keeps, scan-Keeps}
use blackhole_network.Momentum.Run.{
  Candidate, strategy_id, enter_one, enter_each, enter_with, process_entries, cycle, main,
}

module _ {R : World → World → Type 0} (o : IsPreorder R)
    (same : (w w' : World) → w'.trades ≡ w.trades → R w w') (env : Env)
    (closes : (id exit : ℕ) (why : ExitReason) (order : Option String)
      → Keeps R (close_trade env id exit why order))
    (marks : (id wm : ℕ) → Keeps R (persist_water_mark id wm))
    (bars : Client → String → Result (List Bar)) (rules : Rules) where
  enter_one-Keeps :
      (allocation n : ℕ) (c : Candidate) → Keeps R (enter_one env bars rules allocation n c)
  enter_one-Keeps allocation n (ticker, m) = search step_rules depth 20

  enter_each-Keeps :
      (allocation n : ℕ) (cs : List Candidate) → Keeps R (enter_each env bars rules allocation n cs)
  unfolding enter_each
  enter_each-Keeps allocation n [] = search step_rules
  enter_each-Keeps allocation n (c ∷ cs) =
      let rest = enter_each-Keeps allocation n cs in
      Keeps-bind o (enter_one env bars rules allocation n c) _ (enter_one-Keeps allocation n c)
        λ done. rest

  enter_with-Keeps :
      (allocation : ℕ) (ts : List Trade) → Keeps R (enter_with env bars rules allocation ts)
  enter_with-Keeps allocation ts = search (step_rules, scan-Keeps, enter_each-Keeps) depth 20

  process_entries-Keeps : (allocation : ℕ) → Keeps R (process_entries env bars rules allocation)
  unfolding process_entries
  process_entries-Keeps allocation = search (step_rules, enter_with-Keeps)

  cycle-Keeps : (allocation : ℕ) → Keeps R (cycle env bars rules allocation)
  unfolding cycle
  cycle-Keeps allocation = search (step_rules, process_exits-Keeps, process_entries-Keeps)

  main-Keeps : Keeps R (main env bars rules)
  unfolding main
  main-Keeps =
      run_with_rules-Keeps o same env strategy_id (guarded env strategy_id (cycle env bars rules))
        (guarded-Keeps o same env strategy_id (cycle env bars rules) cycle-Keeps)

persist_water_mark-NoMore : (id wm : ℕ) → Keeps (NoMore strategy_id) (persist_water_mark id wm)
unfolding persist_water_mark
persist_water_mark-NoMore id wm = record {
  at = λ w. record { le = open-update strategy_id id (set_mark wm) w.trades (λ t h. h) };
}

module _ (env : Env) (bars : Client → String → Result (List Bar)) (rules : Rules) where
  pub main-Lasting : Keeps Lasting (main env bars rules)
  main-Lasting =
      main-Keeps Lasting-preorder Lasting-of_rows env (close_trade-Lasting env)
        persist_water_mark-Lasting bars rules

  pub main-NoMore : Keeps (NoMore strategy_id) (main env bars rules)
  main-NoMore =
      main-Keeps (NoMore-preorder strategy_id) (NoMore-of_rows strategy_id) env
        (close_trade-NoMore env strategy_id) persist_water_mark-NoMore bars rules
