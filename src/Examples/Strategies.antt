-- ===== src/Examples/Strategies.antt =====
-- The strategies on the sectors, on the RSI and on the crosses at concrete inputs.
use blackhole_network.Base.{
  max_of, ℕ, ◌+◌, ◌-◌, ◌*◌, ◌≤◌, String, true, false, none, some, List, [], ◌∷◌, ◌≡◌, ◌↔◌, ◌⊎◌,
  refl, arith, str_eq,
}
use blackhole_network.Base.Int.{ℤ, pos, negsuc, ◌≤ℤ◌}
use blackhole_network.Core.Types.{Trade}
use blackhole_network.Core.World.{World, Client, Result, ok}
use blackhole_network.Core.Trades.{get_open_trades}
use blackhole_network.Core.Trades.Count.{open_count}
use blackhole_network.Core.Trades.Invariant.{TradesValid}
use blackhole_network.Nasdaq.Long as Long
use blackhole_network.Nasdaq.Short as Short
use blackhole_network.Nasdaq.Risk.{get_water_mark, age_days}
use blackhole_network.Sector.Indicators.{SectorScore}
use blackhole_network.Sector.Signal.{Scores, SectorSignal, safe_ticker, signal_of}
use blackhole_network.Sector.Signal.Best.{Descending, Best, signal_of-Best}
use blackhole_network.Sector.Decision.{
  score_val, decide_target, decide_weight, remainder_of, shares,
}
use blackhole_network.Sector.Decision.Leader.{decide_target-clings, decide_target-defends}
use blackhole_network.Sector.Decision.Weights.{IsWeight, decide_weight-affordable}
use blackhole_network.Sector.Run as Sector
use blackhole_network.Intraday.Exits.{mark_now, evaluate_exit}
use blackhole_network.Intraday.Exits.Decision.{code_of, evaluate_exit-decides}
use blackhole_network.Intraday.Run as Intraday
use blackhole_network.Intraday.Run.{do_signal_cycle}
use blackhole_network.Intraday.Run.Idle.{do_signal_cycle-idle}
use blackhole_network.Momentum.Bars.{Bar, Rules}
use blackhole_network.Momentum.Run as Momentum
use blackhole_network.Value.Screen.{Figure, Answer, request_failed}
use blackhole_network.Value.Run as Value
use blackhole_network.Value.Company.{Endpoint, Rules as ValueRules}
use blackhole_network.Strategies.Caps.{every_main-max_positions}
use blackhole_network.Strategies.Records.{Recorded, every_main-Recorded}
use blackhole_network.Examples.Data.{env, world, trade}

abbrev score : ℤ → ℕ → SectorScore
score final vol = record {
  price = 500000;
  vol_21 = 1200000;
  vol_annualized = vol;
  final_score = final;
  n_bars = 80;
}

-- Every sector falls; the leader is the one that is held.
abbrev falling : Scores
falling = ("SOXL", score (negsuc 299999) 1600000) ∷ ("TECL", score (negsuc 499999) 500000) ∷ []

decide_target-clings_example :
    some (decide_target (signal_of falling none) (some "SOXL"))
    ≡ (signal_of falling none).best_asset
unfolding signal_of
decide_target-clings_example =
    decide_target-clings falling none "SOXL" (score (negsuc 299999) 1600000) refl (omega arith) refl
      refl

abbrev bear : SectorSignal
bear = record {
  scores = falling;
  sorted_assets = [];
  best_asset = some "SOXL";
  best_score = some (negsuc 299999);
  spy_trend = some false;
}

decide_target-defends_example :
    (str_eq (decide_target bear (some "SOXL")) safe_ticker ≡ true)
    ⊎ (pos 0 ≤ℤ score_val (decide_target bear (some "SOXL")) falling)
decide_target-defends_example = decide_target-defends bear (some "SOXL") refl

decide_weight-affordable_example :
    let weight = decide_weight bear "SOXL" in
    IsWeight weight
    × (shares 50000000 weight 310000 * 310000
          + shares 50000000 (remainder_of weight) 910000 * 910000
        ≤ 50000000)
decide_weight-affordable_example = decide_weight-affordable bear "SOXL" 50000000 310000 910000

signal_of-Best_example :
    Descending (signal_of falling none).sorted_assets
    × Best falling (signal_of falling none) (negsuc 499999)
signal_of-Best_example = signal_of-Best falling none "TECL" (score (negsuc 499999) 500000) refl

abbrev qqq : Trade
qqq = record (trade 7 12) {
  strategy_id = "strat_13_rsi_intraday";
  ticker = "QQQ";
  entry_price = 4000000;
  water_mark = some 4400000;
}

evaluate_exit-decides_example :
    let gain = 108 * 4000000 ≤ 100 * 4250000 in
    let fall = 3 * mark_now qqq 4250000 ≤ 100 * (mark_now qqq 4250000 - 4250000) in
    let old = 5 ≤ age_days 90000 1000 in
    let traded = str_eq qqq.ticker "QQQ" ≡ true in
    let code = code_of (evaluate_exit qqq 4250000 90000) in
    (code ≡ 1 ↔ traded × gain)
    × (code ≡ 2 ↔ traded × ¬ gain × fall)
    × (code ≡ 3 ↔ traded × ¬ gain × ¬ fall × old)
    × ¬ code ≡ 4
unfolding get_water_mark
evaluate_exit-decides_example = evaluate_exit-decides qqq 4250000 90000 (omega arith) (omega arith)

abbrev holding : World
holding = record world { trades = qqq ∷ [] }

do_signal_cycle-idle_example :
    (do_signal_cycle env (some 250000) 50000000 holding ≡ (ok tt, holding))
    × (do_signal_cycle env none 50000000 holding ≡ (ok tt, holding))
unfolding get_open_trades Intraday.state_of
do_signal_cycle-idle_example = do_signal_cycle-idle env 250000 50000000 holding (omega arith)

abbrev rules : Rules
rules = record {
  universe = "AAPL" ∷ "MSFT" ∷ [];
  fast_period = 50;
  slow_period = 200;
  volume_avg_period = 20;
  max_positions = 5;
  volume_confirm_multiplier = (15, 10);
  trailing_stop_pct = (8, 100);
}

abbrev bars : Client → String → Result (List Bar)
bars client ticker = ok []

abbrev percent : ℕ → Figure
percent n = record { m = pos n; e = 0 }

abbrev figures : ValueRules
figures = record {
  universe = "KO" ∷ "PEP" ∷ [];
  filters = record {
    pe_max = percent 15;
    pb_max = percent 2;
    de_max = percent 1;
    roe_min = percent 15;
    decline_52w_min_pct = (10, 100);
  };
  hold_days = 90;
  stop_loss_pct = (20, 100);
  pe_target_max = percent 25;
  max_positions = 6;
}

-- The service is down.
abbrev down : Endpoint → ℕ → Answer
down endpoint attempt = request_failed

abbrev year : Client → String → Result (List ℕ)
year client ticker = ok []

every_main-max_positions_example :
    (open_count Momentum.strategy_id (Momentum.main env bars rules world).1
      ≤ open_count Momentum.strategy_id world)
    × (open_count Value.strategy_id (Value.main env true down year figures world).1
        ≤ max_of (open_count Value.strategy_id world) 6)
every_main-max_positions_example =
    every_main-max_positions env bars rules true down year figures world

world-valid : TradesValid world.trades
world-valid = record { below = ground arith; unique = (refl, (refl, tt)); priced = ground arith }

abbrev closes : Client → String → ℕ → Result (List ℕ)
closes client ticker n = ok (500000 ∷ 510000 ∷ [])

abbrev root : ℕ → ℕ
root n = n

every_main-Recorded_example :
    Recorded world (Long.main env [] world).1
    × Recorded world (Short.main env [] none world).1
    × Recorded world (Sector.main env root closes world).1
    × Recorded world (Intraday.main env (some 250000) world).1
    × Recorded world (Momentum.main env bars rules world).1
    × Recorded world (Value.main env true down year figures world).1
every_main-Recorded_example =
    every_main-Recorded env [] none root closes (some 250000) bars rules true down year figures
      world world-valid
