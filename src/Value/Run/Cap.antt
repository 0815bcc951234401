-- ===== src/Value/Run/Cap.antt =====
-- strategy_value.py: the number of open positions of strategy 2.
use mathlib.Core.Path.{subst}
use blackhole_network.Base.{
  ℕ, suc, ◌+◌, ◌-◌, ◌≤◌, String, Bool, Option, none, some, List, [], ◌∷◌, map, length, take_first,
  max_of, leb, ◌≡◌, sym, arith, Bool-cases, inl, inr,
}
use blackhole_network.Core.Types.{Trade}
use blackhole_network.Core.World.{World, Env, Client, Result}
use blackhole_network.Core.Monad.{◌>>=◌}
use blackhole_network.Core.Monad.Keeps.{Keeps, Keeps-bind}
use blackhole_network.Core.Trades.Count.{
  open_count, GrowsBy, NoMore, NoMore-preorder, NoMore-of_rows, GrowsBy-bind, GrowsBy-after,
  close_trade-NoMore, length-get_open_trades,
}
use blackhole_network.Strategies.Entry.Steps.{load_env-Keeps}
use blackhole_network.Strategies.Entry.Keeps.{in_error-Keeps, guarded-Keeps, run_with_rules-Keeps}
use blackhole_network.Strategies.Entry.Slots.{
  count_rules, grow_rules, length-take_first, Capped, Capped-preorder, Capped-of_rows,
  Capped-of_NoMore,
}
use blackhole_network.Value.Screen.{Answer}
use blackhole_network.Value.Company.{
  Rules, Endpoint, earning_calendar, Candidate, sort_qualifying, fmp_get, symbols_of, qualify,
}
use blackhole_network.Value.Company.Keeps.{fmp_get-Keeps, qualify-Keeps}
use blackhole_network.Value.Run.{
  strategy_id, price_on, buy_at, buy_each, buy_top, enter_with, enter_from, process_exits,
  process_entries, cycle, with_key, main,
}
use blackhole_network.Value.Run.Exits.{process_exits-Keeps}

module _ (env : Env) (has_key : Bool) (fmp : Endpoint → ℕ → Answer)
    (bars : Client → String → Result (List ℕ)) (rules : Rules) where
  buy_at-GrowsBy :
      (allocation : ℕ) (ticker : String) (price : Option ℕ)
      → GrowsBy strategy_id 1 (buy_at env has_key fmp bars rules allocation ticker price)
  buy_at-GrowsBy allocation ticker none = search grow_rules
  buy_at-GrowsBy allocation ticker (some price) = search grow_rules depth 30

  price_on-NoMore :
      (client : Client) (ticker : String)
      → Keeps (NoMore strategy_id) (price_on env has_key fmp bars rules client ticker)
  price_on-NoMore client ticker = search count_rules depth 20

  buy_each-GrowsBy :
      (client : Client) (allocation : ℕ) (cs : List Candidate)
      → GrowsBy strategy_id (length cs) (buy_each env has_key fmp bars rules client allocation cs)
  unfolding buy_each
  buy_each-GrowsBy client allocation [] = search grow_rules
  buy_each-GrowsBy client allocation ((ticker, pe) ∷ cs) =
      let next : 1 + length cs ≡ suc (length cs) = omega arith in
      let rest = buy_each-GrowsBy client allocation cs in
      subst
        (λ k.
          GrowsBy strategy_id k
            (buy_each env has_key fmp bars rules client allocation ((ticker, pe) ∷ cs)))
        next
        (GrowsBy-after strategy_id (1 + length cs)
          (price_on env has_key fmp bars rules client ticker) _ (price_on-NoMore client ticker)
          λ price.
            GrowsBy-bind strategy_id 1 (length cs)
              (buy_at env has_key fmp bars rules allocation ticker price) _
              (buy_at-GrowsBy allocation ticker price) (λ placed. rest))

  buy_top-GrowsBy :
      (allocation n : ℕ) (cs : List Candidate)
      → GrowsBy strategy_id
          (rules.max_positions - n)
          (buy_top env has_key fmp bars rules allocation n cs)
  buy_top-GrowsBy allocation n [] = search grow_rules
  buy_top-GrowsBy allocation n (c ∷ cs) =
      let top = take_first (rules.max_positions - n) (sort_qualifying (c ∷ cs)) in
      let some_more : GrowsBy strategy_id (length top)
          (buy_top env has_key fmp bars rules allocation n (c ∷ cs)) =
        search (grow_rules, buy_each-GrowsBy) in
      record {
        at = λ w. omega (
          arith,
          some_more.at w,
          length-take_first (rules.max_positions - n) (sort_qualifying (c ∷ cs)),
        );
      }

  enter_with-Capped :
      (allocation : ℕ) (ts : List Trade) (w : World)
      → length ts ≡ open_count strategy_id w
      → open_count strategy_id (enter_with env has_key fmp bars rules allocation ts w).1
        ≤ max_of (open_count strategy_id w) rules.max_positions
  enter_with-Capped allocation ts w e = elim (Bool-cases (leb rules.max_positions (length ts))) [
    | inl full ↦ rw full (ground arith)
    | inr room ↦
        let o = NoMore-preorder strategy_id in
        let same = NoMore-of_rows strategy_id in
        let closes = close_trade-NoMore env strategy_id in
        let more =
          GrowsBy-after strategy_id (rules.max_positions - length ts)
            (fmp_get env has_key fmp bars rules earning_calendar) _
            (fmp_get-Keeps o same env has_key fmp bars rules earning_calendar)
            λ data_.
              GrowsBy-after strategy_id (rules.max_positions - length ts)
                (qualify env has_key fmp bars rules (symbols_of data_) (map (λ t. t.ticker) ts)
                  rules.universe [])
                (buy_top env has_key fmp bars rules allocation (length ts))
                (qualify-Keeps o same env has_key fmp bars rules _ _ _ _)
                (buy_top-GrowsBy allocation (length ts)) in
        rw room (ground (arith, e, more.at w))
  ]

  process_entries-Capped :
      (allocation : ℕ) (us : List String) (w : World)
      → open_count strategy_id (enter_from env has_key fmp bars rules allocation us w).1
        ≤ max_of (open_count strategy_id w) rules.max_positions
  process_entries-Capped allocation [] w = ground arith
  process_entries-Capped allocation (u ∷ us) w =
      let (ts, e, l) = length-get_open_trades strategy_id w in
      subst
        (λ r.
          open_count strategy_id
            (((λ v. r) >>= enter_with env has_key fmp bars rules allocation) w).1
          ≤ max_of (open_count strategy_id w) rules.max_positions)
        (sym e) (enter_with-Capped allocation ts w l)

  cycle-Capped :
      (allocation : ℕ)
      → Keeps (Capped strategy_id rules.max_positions) (cycle env has_key fmp bars rules allocation)
  unfolding cycle process_entries
  cycle-Capped allocation =
      Keeps-bind (Capped-preorder strategy_id rules.max_positions)
        (process_exits env has_key fmp bars rules)
        (λ done. process_entries env has_key fmp bars rules allocation)
        (Capped-of_NoMore strategy_id rules.max_positions _ (
          process_exits-Keeps (NoMore-preorder strategy_id) (NoMore-of_rows strategy_id) env
            (close_trade-NoMore env strategy_id) has_key fmp bars rules))
        (λ done. record {
          at = λ w. record { le = process_entries-Capped allocation rules.universe w };
        })

  pub main-Capped : Keeps (Capped strategy_id rules.max_positions) (main env has_key fmp bars rules)
  unfolding main
  main-Capped =
      let o = Capped-preorder strategy_id rules.max_positions in
      let same = Capped-of_rows strategy_id rules.max_positions in
      let body =
        guarded-Keeps o same env strategy_id (cycle env has_key fmp bars rules) cycle-Capped in
      let failed = in_error-Keeps o same env strategy_id in
      run_with_rules-Keeps o same env strategy_id (with_key env has_key fmp bars rules)
        λ allocation. search (count_rules, o, same, load_env-Keeps, body, failed) depth 20
