-- ===== src/Examples/Nasdaq.antt =====
-- The strategies on the Nasdaq funds at concrete inputs.
use blackhole_network.Base.{◌*◌, ◌≤◌, some, [], ◌∷◌, ◌≡◌, ◌↔◌, refl, arith}
use blackhole_network.Core.Json.{truth, lookup}
use blackhole_network.Base.Int.{pos, negsuc, neg, ◌+ℤ◌, ◌-ℤ◌, scale, ◌≤ℤ◌}
use blackhole_network.Core.Types.{Trade, buy, sell}
use blackhole_network.Core.Trades.{find_trade}
use blackhole_network.Nasdaq.Risk.{
  keep_holding, stop_loss, profit_target, max_hold, get_water_mark, age_days, evaluate,
}
use blackhole_network.Nasdaq.Risk.Ratchet.{checks, IsBest, checks-IsBest}
use blackhole_network.Nasdaq.Risk.Decision.{mark_at, evaluate-decides_buy}
use blackhole_network.Nasdaq.Signal.{RegressionScore}
use blackhole_network.Core.Types.{active}
use blackhole_network.Core.Lifecycle.{is_system_halted, get_strategy_meta}
use blackhole_network.Core.Gate.{should_run, gate_system, gate_enabled, gate_status}
use blackhole_network.Core.Rules.{
  is_strategy_enabled, load_rules, get_strategy_rules, block_enabled,
}
use blackhole_network.Core.Breakers.{check_circuit_breakers}
use blackhole_network.Nasdaq.Run.Errors.{Ended, run_main-returns}
use blackhole_network.Nasdaq.Long
use blackhole_network.Examples.Data.{env, world, trade, row}

checks-IsBest_example :
    (u : Trade) × (find_trade 1 (checks env 1 1325 (810000 ∷ 790000 ∷ 830000 ∷ []) world).trades
      ≡ some u)
    × IsBest buy (get_water_mark u) (get_water_mark (trade 1 10)) (810000 ∷ 790000 ∷ 830000 ∷ [])
checks-IsBest_example =
    checks-IsBest env 1 1325 (810000 ∷ 790000 ∷ 830000 ∷ []) world (trade 1 10) refl

evaluate-decides_buy_example :
    let t = trade 1 10 in
    let old = 60 ≤ age_days 90000 t.entry_time in
    let stop = 100 * 700000 ≤ 95 * mark_at t 700000 in
    let gain = pos (1325 * t.entry_price) ≤ℤ scale 10000 (pos 700000 -ℤ pos t.entry_price) in
    let action = (evaluate t 90000 700000 1325).action in
    (action ≡ max_hold ↔ old)
    × (action ≡ stop_loss ↔ ¬ old × stop)
    × (action ≡ profit_target ↔ ¬ old × ¬ stop × gain)
    × (action ≡ keep_holding ↔ ¬ old × ¬ stop × ¬ gain)
evaluate-decides_buy_example = evaluate-decides_buy (trade 1 10) 90000 700000 1325 refl

abbrev sold : Trade
sold = record (trade 3 4) { side = sell }

abbrev psq : RegressionScore
psq = record { ticker = "PSQ"; intercept = pos 40 }

abbrev qld : RegressionScore
qld = record { ticker = "QLD"; intercept = negsuc 11 }

run_main-returns_example : Ended "strat_6_nasdaq_long" (Long.main env (qld ∷ psq ∷ []) world)
unfolding Long.main should_run is_system_halted gate_system is_strategy_enabled gate_enabled
    gate_status get_strategy_meta check_circuit_breakers load_rules get_strategy_rules block_enabled
    truth lookup scale neg ◌+ℤ◌ ◌-ℤ◌
run_main-returns_example =
    run_main-returns env "strat_6_nasdaq_long"
      (λ allocation. Long.cycle env allocation (qld ∷ psq ∷ [])) world
      (row "strat_6_nasdaq_long" active) refl refl (λ e. absurd (ground arith))
