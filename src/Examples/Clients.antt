-- ===== src/Examples/Clients.antt =====
-- The clients of trading_core.py at concrete inputs.
use blackhole_network.Base.{String, true, false, none, some, [], ◌∷◌, ◌≡◌, refl}
use blackhole_network.Core.World.{World, Env, Client, Account, ok, obj, str, Fields, field, empty}
use blackhole_network.Core.Json.{lookup, truth}
use blackhole_network.Core.Rules.{get_strategy_rules, load_rules, load_from, dict_or_empty}
use blackhole_network.Core.Rules.Cache.{rules_of}
use blackhole_network.Core.Clients.{
  live_mode_of, load_env, load_strategy_env, get_strategy_alpaca, client_from, new_client, connect,
}
use blackhole_network.Core.Clients.Safety.{Configured, get_strategy_alpaca-IsSafe}
use blackhole_network.Examples.Data.{answers, env, world}

abbrev paper_url : String
paper_url = "https://paper-api.alpaca.markets"

abbrev broker_rules : Fields
broker_rules =
    field "strat_6_nasdaq_long"
      (obj (
        field "broker"
          (obj (
            field "alpaca_key_id" (str "STRAT6_KEY") (
              field "alpaca_secret" (str "STRAT6_SECRET")
                (field "alpaca_base_url" (str paper_url) empty))))
          empty))
      empty

abbrev configured : World
configured = record world {
  rules_file = some (broker_rules, 9);
  environ = ("STRAT6_KEY", "k") ∷ ("STRAT6_SECRET", "s") ∷ [];
  strategy_clients = [];
}

abbrev own_client : Client
own_client = record { credentials = some ("k", "s"); base_url = paper_url }

made : (get_strategy_alpaca env "strat_6_nasdaq_long" configured).0 ≡ ok own_client
unfolding get_strategy_alpaca client_from new_client connect load_strategy_env get_strategy_rules
    load_rules load_from lookup truth live_mode_of
made = refl

get_strategy_alpaca-IsSafe_example :
    Configured env
      (dict_or_empty (lookup "strat_6_nasdaq_long" (rules_of configured)))
      own_client
      (get_strategy_alpaca env "strat_6_nasdaq_long" configured).1
get_strategy_alpaca-IsSafe_example =
    get_strategy_alpaca-IsSafe env "strat_6_nasdaq_long" configured own_client refl made

abbrev blocked : Account
blocked = record { account_blocked = true; trading_blocked = false }

abbrev blocking : Env
blocking = record (answers true) { get_account = λ c. ok blocked }

abbrev fresh : World
fresh = record world { default_client = none }

loaded : (load_env fresh).0 ≡ ok (paper_url, false)
unfolding load_env
loaded = refl
