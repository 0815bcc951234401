-- ===== src/Examples/Data.antt =====
-- The worlds and outside answers that the examples run on.
use blackhole_network.Base.{ℕ, String, Bool, true, false, none, some, List, [], ◌∷◌}
use blackhole_network.Base.Int.{pos, negsuc}
use blackhole_network.Core.Types.{
  Status, active, paused, Strategy, note, Trade, buy, opened, Mismatch, unknown_position,
  default_account,
}
use blackhole_network.Core.World.{
  World, Env, obj, bool, Fields, field, empty, ok, raised, broker_error, Order,
}

abbrev pub row : String → Status → Strategy
row sid st = record {
  id = sid;
  status = st;
  capital_allocation = 100000000;
  live_mode_approved = false;
  reason = note "seed";
}

-- The system runs, one strategy is active and one is paused.
abbrev pub rows : List Strategy
rows = row "system" active ∷ row "strat_6_nasdaq_long" active ∷ row "strat_4_momentum" paused ∷ []

abbrev pub rules : Fields
rules =
    field "strat_6_nasdaq_long" (obj (field "enabled" (bool true) empty))
      (field "strat_4_momentum" (obj (field "enabled" (bool false) empty)) empty)

abbrev pub trade : ℕ → ℕ → Trade
trade id qty = record {
  id = id;
  strategy_id = "strat_6_nasdaq_long";
  ticker = "QLD";
  side = buy;
  qty = qty;
  entry_price = 800000;
  entry_time = 1000;
  status = opened;
  exit_price = none;
  exit_reason = none;
  pnl_dollar = none;
  pnl_pct = none;
  signal_id = none;
  stop_level = none;
  target_level = none;
  order_entry = some "o-1";
  order_exit = none;
  water_mark = none;
}

abbrev pub world : World
world = record {
  strategies = rows;
  signals = [];
  trades = trade 1 10 ∷ trade 2 5 ∷ [];
  events = [];
  performance =
      record {
        strategy_id = "strat_6_nasdaq_long";
        date = 20;
        daily_pnl = negsuc 9999;
        cumulative_pnl = some (pos 500000);
        high_water_mark = some (pos 520000);
      }
      ∷ [];
  heartbeats = [];
  rules_file = some (rules, 7);
  rules_cache = none;
  rules_mtime = 0;
  core_env = some ("https://paper-api.alpaca.markets", false);
  environ = [];
  env_loaded = [];
  strategy_clients =
      (
        "strat_6_nasdaq_long",
        record {
          credentials = some ("key", "secret");
          base_url = "https://paper-api.alpaca.markets";
        },
      )
      ∷ [];
  default_client =
      some (record { credentials = none; base_url = "https://paper-api.alpaca.markets" });
  requests = [];
  alerts = [];
  texts = [];
}

abbrev order : Order
order = record { id = "o-9"; filled_avg_price = some 810000; limit_price = none }

-- The broker fills everything, has one open order, and refuses to cancel it.
abbrev pub answers : Bool → Env
answers json_safe = record {
  now = 90000;
  today = 20;
  stamp = "2026-05-12T14:00:00";
  market_is_open = ok true;
  env_file = λ sid. [];
  get_account = λ c. ok (record { account_blocked = false; trading_blocked = false });
  list_orders = λ c. ok (order ∷ []);
  cancel_order = λ c id. raised (broker_error 422);
  submit_order = λ c r. ok order;
  get_order = λ c id k. ok order;
  latest_trade = λ c t. ok 805000;
  list_positions = λ c. raised (broker_error 503);
  nj_cache = ok none;
  has_json_safe = json_safe;
  sms_accepted = true;
  heartbeat_ok = false;
}

abbrev pub env : Env
env = answers true

abbrev pub mismatch : Mismatch
mismatch = record {
  kind = unknown_position;
  strategy_id = none;
  ticker = "QID";
  expected_qty = pos 0;
  actual_qty = pos 3;
  value_usd = 100;
  account = default_account;
}
