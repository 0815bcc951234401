-- ===== src/Examples/Monitor.antt =====
-- The stop-loss of the Kalshi positions at concrete inputs.
use blackhole_network.Base.{ℕ, true, none, some, [], ◌∷◌, ◌≡◌, refl, arith}
use blackhole_network.Base.Int.{pos, scale, ◌-ℤ◌, ◌+ℤ◌}
use blackhole_network.Prediction.Types.{no_side}
use blackhole_network.Monitor.Positions.{Tables, Position}
use blackhole_network.Monitor.Triggers.{Settings, shift_against, dollar_loss}
use blackhole_network.Monitor.Triggers.Rules.{bias, dollar_loss-shift}
use blackhole_network.Monitor.Cycle.{Services, Floor, run_cycle}
use blackhole_network.Monitor.Cycle.Accounts.{Adds, run_cycle-accounts}

abbrev settings : Settings
settings = record {
  enabled = true;
  dry_run = true;
  prob_shift = 2000;
  dollar = 20000;
  forecast_shift = 20;
  forecast_hard = 40;
  tail_no_thresh = 500;
}

abbrev position : Position
position = record {
  contract_ticker = "KXHIGHMIA-26MAY15-T80";
  side = no_side;
  contracts = 10;
  avg_price = some 7000;
  city = some "Miami";
  station_code = some "KMIA";
  bucket_floor = none;
  bucket_cap = none;
  target_day = some 20588;
  entry_implied_prob = some (pos 3000);
  current_yes_mid = some 4000;
  current_yes_bid = some 3900;
  nws_forecast_now = some (pos 810);
  nws_forecast_entry = some (pos 800);
}

dollar_loss-shift_example :
    dollar_loss position
    ≡ some (scale 10 (shift_against no_side (pos 3000) 4000 +ℤ bias no_side 7000))
unfolding ◌-ℤ◌
dollar_loss-shift_example =
    dollar_loss-shift position (pos 3000) 7000 4000 (λ e. absurd (ground arith)) refl refl refl

abbrev tables : Tables
tables = record {
  positions =
      record {
        contract_ticker = "KXHIGHMIA-26MAY15-T80";
        side = no_side;
        contracts = 10;
        avg_price = some 7000;
        captured_at = 5;
      }
      ∷ [];
  catalog = [];
  markets =
      record {
        market_ticker = "KXHIGHMIA-26MAY15-T80";
        yes_mid = some 6000;
        yes_bid = some 5900;
        retrieved_at = 6;
      }
      ∷ [];
  forecasts = [];
}

abbrev services : Services
services = record {
  now = 1778800000;
  takes_message = λ m. true;
  takes_order = λ o. true;
  inserts = λ r. true;
}

abbrev floor : Floor
floor = record { exits = []; messages = []; orders = [] }

run_cycle-accounts_example :
    ((k : ℕ)
      → (run_cycle settings services tables floor).0 ≡ some k
      → Adds true k [] (run_cycle settings services tables floor).1.exits)
    × ((run_cycle settings services tables floor).0 ≡ none
        → (run_cycle settings services tables floor).1.exits ≡ [])
    × (true ≡ true
        → ((run_cycle settings services tables floor).1.messages ≡ [])
          × ((run_cycle settings services tables floor).1.orders ≡ []))
run_cycle-accounts_example = run_cycle-accounts settings services tables floor
