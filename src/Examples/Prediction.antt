-- ===== src/Examples/Prediction.antt =====
-- The bets on the weather at concrete inputs.
use blackhole_network.Base.{
  ℕ, ◌+◌, ◌*◌, ◌≤◌, ◌<◌, String, true, false, none, some, [], ◌∷◌, ◌≡◌, refl, arith,
}
use blackhole_network.Prediction.Types.{
  Side, yes_side, no_side, Bet, bet_open, Contract, Metadata, tmax_f, above,
}
use blackhole_network.Prediction.Ticker.{parse_kalshi_weather_ticker}
use blackhole_network.Prediction.Ticker.Valid.{IsValid, parse_kalshi_weather_ticker-IsValid}
use blackhole_network.Prediction.Outcome.{
  settled_yes, market_body, Market, fetch_kalshi_market_outcome, market_outcome,
}
use blackhole_network.Prediction.Payout.{compute_payout}
use blackhole_network.Prediction.Settlement.{Outside, Desk, settleable_bets, settle_all_open_bets}
use blackhole_network.Prediction.Settlement.Steps.{SettlesTo, Rowwise, settle_all_open_bets-refines}
use blackhole_network.Prediction.Settlement.Progress.{settle_all_open_bets-clears}
use blackhole_network.Prediction.Decision.{Ratio, Estimate, evaluate_decision}
use blackhole_network.Prediction.Decision.Bounds.{Favours, evaluate_decision-IsSound}
use blackhole_network.Prediction.Window.{
  Surroundings, Payload, new_window, run_window, bet_row, drawn_on,
}
use blackhole_network.Prediction.Window.Limits.{IsWithin, run_window-IsWithin}
use blackhole_network.Prediction.Window.Once.{DifferentTickers, run_window-orders_once}
use blackhole_network.Prediction.Window.Settled.{run_window-settles}
use blackhole_network.Prediction.Window.Winnings.{bet_row-pays}

abbrev miami : String
miami = "KXHIGHMIA-26MAY15-T80"

abbrev miami_contract : Metadata
miami_contract = record {
  ticker = miami;
  series = "KXHIGHMIA";
  station = "KMIA";
  variable = tmax_f;
  day = 2026 * 512 + 5 * 32 + 15;
  threshold = record { digits = 80; places = 0 };
  op = above;
  threshold_high = none;
}

parse_kalshi_weather_ticker-IsValid_example : IsValid miami_contract
unfolding parse_kalshi_weather_ticker
parse_kalshi_weather_ticker-IsValid_example =
    parse_kalshi_weather_ticker-IsValid miami miami_contract refl

abbrev bet : ℕ → Side → ℕ → Bet
bet id side entry_price = record {
  id = id;
  contract_id = 7;
  on_kalshi = true;
  side = side;
  stake = 1000;
  entry_price = entry_price;
  placed_day = 20;
  status = bet_open;
  payout = none;
  pnl = none;
  exchange_order_id = none;
}

abbrev contract : Contract
contract = record {
  id = 7;
  ticker = miami;
  resolution_day = some 20;
  resolved = none;
  is_active = true;
}

abbrev desk : Desk
desk = record {
  bets = bet 1 yes_side 4000 ∷ bet 2 no_side 6000 ∷ [];
  contracts = contract ∷ [];
  observations = [];
  notices = [];
}

abbrev decided_market : Market
decided_market = record { status = some "settled"; result = some "yes"; outcome = none }

abbrev outside : Outside
outside = record {
  get_market = λ t. market_body decided_market;
  fetch_nws_cli = λ s d. none;
  today = 21;
  commits = λ id. true;
}

settle_all_open_bets-refines_example :
    Rowwise (SettlesTo outside desk.contracts) desk.bets (settle_all_open_bets outside desk).1.bets
settle_all_open_bets-refines_example =
    settle_all_open_bets-refines outside desk (((λ e. absurd (ground arith)), tt), (tt, tt))

settle_all_open_bets-clears_example :
    settleable_bets 21
      (settle_all_open_bets outside desk).1.contracts
      (settle_all_open_bets outside desk).1.bets
    ≡ []
unfolding fetch_kalshi_market_outcome market_outcome
settle_all_open_bets-clears_example =
    settle_all_open_bets-clears outside desk (λ t. (settled_yes, refl)) (λ id. refl)
      ((λ e. absurd (ground arith)), ((λ e. absurd (ground arith)), tt))

abbrev sixty : Estimate
sixty = record {
  probability = some (record { n = 60; d = 100 });
  confidence = some (record { n = 7; d = 10 });
}

evaluate_decision-IsSound_example :
    let e = evaluate_decision sixty 40 200000 in
    (p : Ratio) × (c : Ratio) × (side : Side) × (sixty.probability ≡ some p)
    × (sixty.confidence ≡ some c)
    × (65 * c.d ≤ 100 * c.n)
    × (e.side ≡ some side)
    × Favours p 40 side e.limit_price_cents
    × (0 < e.limit_price_cents)
    × (e.limit_price_cents < 100)
    × (1 ≤ e.contracts_to_buy)
    × (e.limit_price_cents * e.contracts_to_buy ≤ e.stake)
    × (5 * e.stake ≤ 200000)
unfolding evaluate_decision
evaluate_decision-IsSound_example = evaluate_decision-IsSound sixty 40 200000 refl

bet_row-pays_example :
    let e = evaluate_decision sixty 40 200000 in
    let b = bet_row 3 7 20 yes_side e none in
    let paid = (compute_payout b.side b.stake b.entry_price settled_yes).payout in
    (100 * e.contracts_to_buy ≤ paid) × (paid ≤ 100 * (e.contracts_to_buy + 1))
unfolding evaluate_decision
bet_row-pays_example = bet_row-pays sixty 40 200000 3 7 20 yes_side none settled_yes refl refl

abbrev around : Surroundings
around = record {
  estimate = λ m. sixty;
  place_order = λ o. some (some "order-1");
  contracts = contract ∷ [];
  today = 20;
  sums_stakes = true;
  finds_contract = true;
  new_row = some 3;
}

abbrev price_update : Surroundings × Payload
price_update = (around, record { ticker = miami; best_yes_cents = some 40 })

run_window-IsWithin_example :
    IsWithin 20 (run_window (price_update ∷ price_update ∷ []) (new_window false desk.bets))
unfolding drawn_on
run_window-IsWithin_example =
    run_window-IsWithin 20 (price_update ∷ price_update ∷ []) (new_window false desk.bets)
      ((refl, refl), ((refl, refl), tt)) (ground arith)

run_window-orders_once_example :
    DifferentTickers
      (run_window (price_update ∷ price_update ∷ []) (new_window false desk.bets)).orders
    × (false ≡ true
        → (run_window (price_update ∷ price_update ∷ []) (new_window false desk.bets)).orders ≡ [])
run_window-orders_once_example =
    run_window-orders_once (price_update ∷ price_update ∷ []) false desk.bets
      (λ e. ((λ o k. absurd (ground arith)), ((λ o k. absurd (ground arith)), tt)))

run_window-settles_example :
    let d : Desk = record {
      bets = (run_window (price_update ∷ price_update ∷ []) (new_window false desk.bets)).bets;
      contracts = contract ∷ [];
      observations = [];
      notices = [];
    } in
    settleable_bets 21
      (settle_all_open_bets outside d).1.contracts
      (settle_all_open_bets outside d).1.bets
    ≡ []
unfolding fetch_kalshi_market_outcome market_outcome
run_window-settles_example =
    run_window-settles (price_update ∷ price_update ∷ []) (new_window false desk.bets) outside
      (contract ∷ []) [] [] ((λ e. absurd (ground arith)), ((λ e. absurd (ground arith)), tt))
      (λ t. (settled_yes, refl)) (λ id. refl)
