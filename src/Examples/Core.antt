-- ===== src/Examples/Core.antt =====
-- trading_core.py at concrete inputs.
use blackhole_network.Base.{
  ℕ, String, true, false, none, some, List, [], ◌∷◌, ◌≡◌, ◌≢◌, ◌↔◌, inr, refl, All, codes, arith,
}
use blackhole_network.Base.Int.{pos, ◌+ℤ◌}
use blackhole_network.Core.Types.{drawdown_15pct, note, buy, target, manual}
use blackhole_network.Core.World.{
  ok, raised, integrity_error, already_closed, Client, bool, Fields, field, empty,
}
use blackhole_network.Core.Rules.{block_enabled}
use blackhole_network.Core.Rules.Cache.{enabled_in, rules_of}
use blackhole_network.Core.Json.{lookup, truth}
use blackhole_network.Core.Sms.{
  sms_name_map, split_from, name_lookup, parse_action, parse_words, parse_sms_toggle_command,
}
use blackhole_network.Core.Sms.RoundTrip.{Reads, parse_sms_toggle_command-Reads}
use blackhole_network.Core.Clients.Frame.{SameTables}
use blackhole_network.Core.Breakers.{trip_breaker}
use blackhole_network.Core.Halt.{handle_mismatch}
use blackhole_network.Core.Gate.{should_run}
use blackhole_network.Core.Gate.Allowed.{IsCleared}
use blackhole_network.Core.Gate.Passes.{should_run-allows_iff}
use blackhole_network.Core.Gate.Halted.{
  AllHalted, handle_mismatch-halts, handle_mismatch-raises, trip_breaker-blocks,
}
use blackhole_network.Core.Trades.{Ticket, close_trade, closed_row, find_trade}
use blackhole_network.Core.Trades.Invariant.{TradesValid}
use blackhole_network.Core.Trades.Closing.{close_trade-once}
use blackhole_network.Core.Orders.{Placed, place_order}
use blackhole_network.Core.Orders.Refusal.{place_order-refused}
use blackhole_network.Core.Reconcile.{
  account_mismatches, position_mismatches, absent_mismatches, pg_qty, ByTicker,
}
use blackhole_network.Core.Reconcile.Agreement.{expected_qty, held_qty, account_mismatches-agree}
use blackhole_network.Examples.Data.{env, world, trade, mismatch}

abbrev long_strategy : String
long_strategy = "strat_6_nasdaq_long"

abbrev paused_strategy : String
paused_strategy = "strat_4_momentum"

should_run-allows_iff_example :
    ((should_run env long_strategy true world).0 ≡ ok none) ↔ IsCleared env long_strategy true world
should_run-allows_iff_example = should_run-allows_iff env "strat_6_nasdaq_long" true world

handle_mismatch-raises_example :
    handle_mismatch (record mismatch { strategy_id = some "strat_9" }) world
    ≡ (raised integrity_error, world)
handle_mismatch-raises_example =
    handle_mismatch-raises world (record mismatch { strategy_id = some "strat_9" }) refl

handle_mismatch-halts_example :
    AllHalted (handle_mismatch mismatch world).1.strategies
    × ((should_run env long_strategy false (handle_mismatch mismatch world).1).0 ≢ ok none)
handle_mismatch-halts_example =
    handle_mismatch-halts env "strat_6_nasdaq_long" false world mismatch refl

trip_breaker-blocks_example :
    (should_run env paused_strategy false
      (trip_breaker long_strategy drawdown_15pct (note "drawdown") world).1).0
    ≢ ok none
trip_breaker-blocks_example =
    trip_breaker-blocks env "strat_6_nasdaq_long" "strat_4_momentum" drawdown_15pct
      (note "drawdown") false world (inr refl)

abbrev ticket : String → Ticket
ticket sid = record {
  strategy_id = sid;
  ticker = "QLD";
  side = buy;
  qty = 3;
  signal_id = none;
  stop_level = none;
  target_level = none;
  water_mark = none;
}

disabled : enabled_in paused_strategy (rules_of world) ≢ true
unfolding lookup block_enabled truth
disabled h = cc h

not_through : (should_run env paused_strategy false world).0 ≢ ok none
not_through h =
    let c = (should_run-allows_iff env paused_strategy false world).0 h in
    absurd (disabled c.enabled)

place_order-refused_example :
    SameTables world (place_order env (ticket paused_strategy) false none world).1
    × ((p : Placed) → (place_order env (ticket paused_strategy) false none world).0 ≢ ok p)
place_order-refused_example =
    place_order-refused env (ticket paused_strategy) false none world not_through

world-TradesValid : TradesValid world.trades
world-TradesValid = record {
  below = ground arith;
  unique = (refl, (refl, tt));
  priced = ground arith;
}

close_trade-once_example :
    let w' = (close_trade env 2 820000 target none world).1 in
    (find_trade 2 w'.trades ≡ some (closed_row 820000 target none (trade 2 5)))
    × TradesValid w'.trades
    × ((other : ℕ) → other ≢ 2 → find_trade other w'.trades ≡ find_trade other world.trades)
    × (close_trade env 2 790000 manual none w' ≡ (raised (already_closed 2), w'))
close_trade-once_example =
    close_trade-once env 2 820000 790000 target manual none none world (trade 2 5) world-TradesValid
      refl refl

abbrev block : Fields
block = field "enabled" (bool true) empty

abbrev space : List ℕ
space = 32 ∷ []

abbrev command : List ℕ
command = codes " disable  Strat13"

parse_sms_toggle_command-Reads_example :
    All
      (λ e.
        Reads false e.0 command space 32 space []
        → parse_sms_toggle_command command ≡ some (false, e.1))
      sms_name_map
parse_sms_toggle_command-Reads_example =
    parse_sms_toggle_command-Reads false command space 32 space [] (refl, tt) (refl, (refl, tt)) tt

understood : parse_sms_toggle_command command ≡ some (false, "strat_13_rsi_intraday")
unfolding parse_sms_toggle_command parse_words parse_action name_lookup split_from
understood = refl

abbrev client : Client
client = record {
  credentials = some ("key", "secret");
  base_url = "https://paper-api.alpaca.markets";
}

abbrev by_ticker : ByTicker
by_ticker = ("QLD", trade 1 10 ∷ trade 2 5 ∷ []) ∷ []

no_mismatch : account_mismatches env long_strategy client (("QLD", pos 15) ∷ []) by_ticker ≡ []
unfolding account_mismatches position_mismatches absent_mismatches pg_qty ◌+ℤ◌
no_mismatch = refl

account_mismatches-agree_example :
    expected_qty by_ticker "QLD" ≡ held_qty (("QLD", pos 15) ∷ []) "QLD"
account_mismatches-agree_example =
    account_mismatches-agree env long_strategy client (("QLD", pos 15) ∷ []) by_ticker "QLD"
      no_mismatch
