-- ===== src/Value/Run/Lasting.antt =====
-- strategy_value.py: what a run of strategy 2 does to paper_trades.
use blackhole_network.Base.{ℕ, String, Bool, Option, none, some, List, [], ◌∷◌}
use blackhole_network.Core.Types.{Trade}
use blackhole_network.Core.World.{Env, Client, Result}
use blackhole_network.Core.Monad.Keeps.{Keeps, Keeps-bind}
use blackhole_network.Core.Trades.Lasting.{
  Lasting, Lasting-preorder, Lasting-of_rows, close_trade-Lasting,
}
use blackhole_network.Nasdaq.Run.Lasting.{trade_rules}
use blackhole_network.Strategies.Entry.Steps.{load_env-Keeps}
use blackhole_network.Strategies.Entry.Keeps.{
  order_or_log-Lasting, in_error-Keeps, guarded-Keeps, run_with_rules-Keeps,
}
use blackhole_network.Value.Screen.{Answer}
use blackhole_network.Value.Company.{Rules, Endpoint, Candidate}
use blackhole_network.Value.Company.Keeps.{fmp_get-Keeps, qualify-Keeps}
use blackhole_network.Value.Run.{
  strategy_id, price_on, buy_at, buy_each, buy_top, enter_with, enter_from, process_entries, cycle,
  with_key, main,
}
use blackhole_network.Value.Run.Exits.{process_exits-Keeps}

module _ (env : Env) (has_key : Bool) (fmp : Endpoint → ℕ → Answer)
    (bars : Client → String → Result (List ℕ)) (rules : Rules) where
  buy_at-Lasting :
      (allocation : ℕ) (ticker : String) (price : Option ℕ)
      → Keeps Lasting (buy_at env has_key fmp bars rules allocation ticker price)
  buy_at-Lasting allocation ticker none = search trade_rules
  buy_at-Lasting allocation ticker (some price) =
      search (trade_rules, order_or_log-Lasting) depth 20

  buy_each-Lasting :
      (client : Client) (allocation : ℕ) (cs : List Candidate)
      → Keeps Lasting (buy_each env has_key fmp bars rules client allocation cs)
  unfolding buy_each
  buy_each-Lasting client allocation [] = search trade_rules
  buy_each-Lasting client allocation ((ticker, pe) ∷ cs) =
      let rest = buy_each-Lasting client allocation cs in
      Keeps-bind Lasting-preorder (price_on env has_key fmp bars rules client ticker) _
        (search trade_rules depth 20)
        λ price.
          Keeps-bind Lasting-preorder (buy_at env has_key fmp bars rules allocation ticker price) _
            (buy_at-Lasting allocation ticker price) (λ placed. rest)

  buy_top-Lasting :
      (allocation open_count : ℕ) (cs : List Candidate)
      → Keeps Lasting (buy_top env has_key fmp bars rules allocation open_count cs)
  buy_top-Lasting allocation open_count [] = search trade_rules
  buy_top-Lasting allocation open_count (c ∷ cs) = search (trade_rules, buy_each-Lasting)

  enter_with-Lasting :
      (allocation : ℕ) (ts : List Trade)
      → Keeps Lasting (enter_with env has_key fmp bars rules allocation ts)
  enter_with-Lasting allocation ts =
      search
        (
          trade_rules, Lasting-of_rows, close_trade-Lasting, fmp_get-Keeps, qualify-Keeps,
          buy_top-Lasting,
        )
        depth 20

  enter_from-Lasting :
      (allocation : ℕ) (us : List String)
      → Keeps Lasting (enter_from env has_key fmp bars rules allocation us)
  enter_from-Lasting allocation [] = search trade_rules
  enter_from-Lasting allocation (u ∷ us) = search (trade_rules, enter_with-Lasting)

  process_entries-Lasting :
      (allocation : ℕ) → Keeps Lasting (process_entries env has_key fmp bars rules allocation)
  unfolding process_entries
  process_entries-Lasting allocation = enter_from-Lasting allocation rules.universe

  cycle-Lasting : (allocation : ℕ) → Keeps Lasting (cycle env has_key fmp bars rules allocation)
  unfolding cycle
  cycle-Lasting allocation =
      search (trade_rules, Lasting-of_rows, process_exits-Keeps, process_entries-Lasting)

  with_key-Lasting :
      (allocation : ℕ) → Keeps Lasting (with_key env has_key fmp bars rules allocation)
  with_key-Lasting allocation =
      let body =
        guarded-Keeps Lasting-preorder Lasting-of_rows env strategy_id
          (cycle env has_key fmp bars rules) cycle-Lasting in
      let failed = in_error-Keeps Lasting-preorder Lasting-of_rows env strategy_id in
      search (trade_rules, Lasting-of_rows, load_env-Keeps, body, failed) depth 20

  pub main-Lasting : Keeps Lasting (main env has_key fmp bars rules)
  unfolding main
  main-Lasting =
      run_with_rules-Keeps Lasting-preorder Lasting-of_rows env strategy_id
        (with_key env has_key fmp bars rules) with_key-Lasting
