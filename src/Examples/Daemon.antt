-- ===== src/Examples/Daemon.antt =====
-- reconciliation_daemon.py at concrete inputs.
use blackhole_network.Base.{Bool, true, false, none, some, [], ◌∷◌, ◌≡◌, ◌≢◌, ◌↔◌, refl}
use blackhole_network.Base.Int.{pos}
use blackhole_network.Core.World.{World, Env, ok, raised, integrity_error, empty}
use blackhole_network.Core.Json.{lookup, truth}
use blackhole_network.Core.Rules.{get_strategy_rules, load_rules, load_from}
use blackhole_network.Core.Clients.{
  get_alpaca, get_alpaca_from, for_clients, for_clients_in, visit, get_strategy_alpaca, client_from,
  new_client,
}
use blackhole_network.Daemon.Sources.{
  Book, visit_default, visit_strategy, recheck, merge_all, pg_rows, fetch_alpaca_state,
  fetch_pg_state, fetch_nj_cache_state,
}
use blackhole_network.Daemon.Cycle.{fetch_all, run_once}
use blackhole_network.Daemon.Cycle.Halting.{run_once-unhalted}
use blackhole_network.Examples.Data.{answers, world, trade}
use blackhole_network.Daemon.Compare.{missing_from, compare_pair, compare_three_sources}
use blackhole_network.Daemon.Compare.Agreement.{Agree, compare_three_sources-agrees_iff}

abbrev at_alpaca : Book
at_alpaca =
    ("QLD", record { qty = pos 15; avg_entry_price = record { num = pos 800000; den = 1 } }) ∷ []

-- The price is a quarter of a cent higher.
abbrev at_pg : Book
at_pg =
    ("QLD", record { qty = pos 15; avg_entry_price = record { num = pos 12000375; den = 15 } }) ∷ []

compare_three_sources-agrees_iff_example :
    compare_three_sources at_alpaca at_pg [] ≡ []
    ↔ Agree at_alpaca at_pg × Agree at_alpaca [] × Agree at_pg []
compare_three_sources-agrees_iff_example =
    compare_three_sources-agrees_iff at_alpaca at_pg [] (refl, tt) (refl, tt) tt

-- An account that answers, and a trade that it does not hold.
abbrev reachable : Bool → Env
reachable columns = record (answers true) { list_positions = λ c. ok []; heartbeat_ok = columns }

abbrev one_trade : World
one_trade = record world {
  trades = trade 1 10 ∷ [];
  rules_file = none;
  rules_cache = some empty;
  strategy_clients = [];
}

abbrev at_open : Book
at_open =
    ("QLD", record { qty = pos 10; avg_entry_price = record { num = pos 800000; den = 1 } }) ∷ []

fetched : (columns : Bool) → (fetch_all (reachable columns) one_trade).0 ≡ ok ([], at_open, [])
unfolding fetch_all fetch_alpaca_state visit_default visit_strategy recheck merge_all fetch_pg_state
    pg_rows fetch_nj_cache_state get_alpaca get_alpaca_from for_clients for_clients_in visit
    get_strategy_alpaca client_from new_client get_strategy_rules load_rules load_from lookup truth
fetched columns = refl

differ : compare_three_sources [] at_open [] ≢ []
unfolding compare_three_sources compare_pair missing_from
differ h = cc h

run_once-unhalted_example :
    run_once (reachable false) false one_trade
    ≡ (raised integrity_error, (fetch_all (reachable false) one_trade).1)
run_once-unhalted_example =
    run_once-unhalted (reachable false) false [] at_open [] one_trade refl (fetched false) differ
