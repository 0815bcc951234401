-- ===== src/Killswitch/Halt/Outcome.antt =====
-- master_killswitch.py: what a halt leaves behind, on every path, and what a reset does.
use mathlib.Core.Path.{subst}
use blackhole_network.Base.{
  ℕ, String, Bool, true, false, not, Option, none, some, List, ◌≡◌, ◌≢◌, sym, arith,
}
use blackhole_network.Core.Types.{Message, Strategy, EventType}
use blackhole_network.Core.World.{World, Env, Client, Order, Result, ok, raised}
use blackhole_network.Core.Monad.{Call}
use blackhole_network.Core.Monad.Keeps.{IsPreorder, Keeps, keeps_rules}
use blackhole_network.Core.Monad.Bind.{bind_ok}
use blackhole_network.Core.Clients.Returns.{
  Returns, Returns-pass, returns_rules, for_clients-Returns,
}
use blackhole_network.Core.Halt.{halt_rows}
use blackhole_network.Core.Gate.{should_run}
use blackhole_network.Core.Gate.Halted.{AllHalted, halt_rows-AllHalted, should_run-AllHalted}
use blackhole_network.Killswitch.Teardown.{
  Cancelled, Flattened, cancel_all_open_orders, flatten_all_positions, send_sms,
}
use blackhole_network.Killswitch.Teardown.Keeps.{
  SameStatus, cancel_all_open_orders-SameStatus, flatten_all_positions-SameStatus,
}
use blackhole_network.Killswitch.Halt.{
  report, halt_state_of, add_orders, tear_down, count_orders, get_halt_state,
  record_killswitch_event, flatten_if, heartbeat, notify, halt,
}

-- The statuses alone.
pub record SameRows (w w' : World) : Type 0 where
  pub strategies : w'.strategies ≡ w.strategies

SameRows-preorder : IsPreorder SameRows
SameRows-preorder = record { same = λ w. ground arith; trans = λ u v w h k. ground arith }

weaken : {A : Type 0} (m : Call A) → Keeps SameStatus m → Keeps SameRows m
weaken m k = record { at = λ w. record { strategies = (k.at w).strategies } }

module _ (env : Env) where
  flatten_if-SameRows : (b : Bool) → Keeps SameRows (flatten_if env b)
  flatten_if-SameRows true =
      weaken (flatten_all_positions env) (flatten_all_positions-SameStatus env)
  flatten_if-SameRows false = search (keeps_rules, SameRows-preorder)

  event-SameRows :
      (why : Message) (a : EventType) → Keeps SameRows (record_killswitch_event env why a)
  unfolding record_killswitch_event
  event-SameRows why a = record { at = λ w. ground arith }

  send_sms-SameRows : (m : Message) → Keeps SameRows (send_sms env m)
  unfolding send_sms
  send_sms-SameRows m = record { at = λ w. ground arith }

  notify-SameRows : (b : Bool) (m : Message) → Keeps SameRows (notify env b m)
  notify-SameRows true m = search (keeps_rules, SameRows-preorder, send_sms-SameRows)
  notify-SameRows false m = search (keeps_rules, SameRows-preorder)

  heartbeat-SameRows : (why : Message) (s : String) → Keeps SameRows (heartbeat env why s)
  heartbeat-SameRows why s = record { at = λ w. ground arith }

  report-SameRows :
      (why : Message) (source : String) (flatten first : Bool) (c : Cancelled) (f : Flattened)
      → Keeps SameRows (report env why source flatten first c f)
  unfolding report
  report-SameRows why source flatten first c f =
      search (keeps_rules, SameRows-preorder, event-SameRows, heartbeat-SameRows, notify-SameRows)
        depth 12

  cancels-SameRows : Keeps SameRows (cancel_all_open_orders env)
  cancels-SameRows = weaken (cancel_all_open_orders env) (cancel_all_open_orders-SameStatus env)

  pub tear_down-SameRows :
      (why : Message) (source : String) (flatten first : Bool)
      → Keeps SameRows (tear_down env why source flatten first)
  unfolding tear_down
  tear_down-SameRows why source flatten first =
      search
        (keeps_rules, SameRows-preorder, cancels-SameRows, flatten_if-SameRows, report-SameRows)
        depth 9

  add_orders-Returns : (acc : Option ℕ) (r : Result (List Order)) → Returns (add_orders env acc r)
  unfolding add_orders
  add_orders-Returns acc (raised e) = Returns-pass acc
  add_orders-Returns none (ok os) = search returns_rules
  add_orders-Returns (some n) (ok os) = search returns_rules

  count_orders-Returns :
      (l : String) (c : Client) (acc : Option ℕ) → Returns (count_orders env l c acc)
  unfolding count_orders
  count_orders-Returns l c acc = add_orders-Returns acc (env.list_orders c)

  halt_state_of-Returns : (row : Option Strategy) (n : ℕ) → Returns (halt_state_of env row n)
  unfolding halt_state_of
  halt_state_of-Returns row n =
      search (returns_rules, count_orders-Returns, for_clients-Returns) depth 12

  pub get_halt_state-Returns : Returns (get_halt_state env)
  unfolding get_halt_state
  get_halt_state-Returns = record { at = λ w. (halt_state_of-Returns _ _).at w }

  -- Whatever the broker, the rules and the credentials answer, and whether or not the call raises:
  -- after `halt` every row of trading_strategies is halted and no strategy is let through.
  pub halt-halts :
      (why : Message) (source : String) (flatten : Bool) (w : World) (env' : Env) (sid : String)
      (market : Bool)
      → let w' = (halt env why source flatten w).1 in
        AllHalted w'.strategies × ((should_run env' sid market w').0 ≢ ok none)
  unfolding halt
  halt-halts why source flatten w env' sid market =
      let (state, e) = get_halt_state-Returns.at w in
      let h = halt_rows-AllHalted why (get_halt_state env w).1.strategies in
      let kept =
        (tear_down-SameRows why source flatten (not state.is_halted)).at
          (record ((get_halt_state env w).1) {
            strategies = halt_rows why (get_halt_state env w).1.strategies;
          }) in
      rw (bind_ok (get_halt_state env) _ w e) (
        let all = subst AllHalted (sym kept.strategies) h in
        (all, should_run-AllHalted env' sid market _ all))
