-- ===== src/Killswitch/Halt.antt =====
-- master_killswitch.py: the halt state, `halt` and `reset`.
pub mod Outcome
pub mod Audit
pub mod Reset
use blackhole_network.Base.{
  ℕ, ◌+◌, String, Bool, true, false, not, Option, none, some, List, [], ◌∷◌, ◌++◌, keep, length,
  if◌then◌else◌,
}
use blackhole_network.Base.Int.{ℤ, pos, negsuc}
use blackhole_network.Core.Types.{
  active, halted, Message, killswitch_text, reset_text, operator_reset, note, Strategy, EventType,
  halt_only, halt_and_flatten, reset_event, manual_halt, of_status, system_scope, halt_beat,
  BreakerEvent,
}
use blackhole_network.Core.World.{Env, Result, ok, raised, Client, Order, attribute_error}
use blackhole_network.Core.Monad.{Call, pass, read, raise_if, write, try_except, ◌>>=◌, ◌>>◌}
use blackhole_network.Core.Clients.{get_alpaca, for_clients}
use blackhole_network.Core.Lifecycle.{system_id, is_halted, find_strategy}
use blackhole_network.Core.Breakers.{insert_event}
use blackhole_network.Core.Trades.{is_open}
use blackhole_network.Core.Halt.{halt_rows}
use blackhole_network.Killswitch.Teardown.{
  Cancelled, Flattened, send_sms, cancel_all_open_orders, flatten_all_positions,
}

pub record HaltState : Type 0 where
  pub is_halted : Bool
  pub halt_reason : Option Message
  pub open_positions : ℕ
  pub open_orders : ℤ

abbrev row_halted : Option Strategy → Bool
row_halted none = false
row_halted (some s) = is_halted s.status

abbrev row_reason : Option Strategy → Option Message
row_reason none = none
row_reason (some s) = some s.reason

-- The f-string of a missing reason is "None".
abbrev reason_text : Option Message → Message
reason_text none = note "None"
reason_text (some why) = why

pub record Summary : Type 0 where
  pub first_halt : Bool
  pub action : EventType
  pub cancelled_orders : ℕ
  pub flattened_positions : ℕ
  pub failed_count : ℕ
  pub breaker_log_id : ℕ

pub data ResetResult : Type 0 where
  confirmation_required not_halted : ResetResult
  was_reset : Option Message → ResetResult

-- `UPDATE trading_strategies SET status = 'active' … WHERE status = 'halted'`
pub reset_rows : Message → List Strategy → List Strategy
reset_rows why [] = []
reset_rows why (s ∷ ss) =
    (if is_halted s.status then record s { status = active; reason = why } else s)
    ∷ reset_rows why ss

abbrev pub killswitch_event : Message → EventType → ℕ → BreakerEvent
killswitch_event why action id = record {
  id = id;
  event_class = manual_halt;
  event_type = action;
  severity = of_status halted;
  strategy_id = some system_id;
  affects_scope = system_scope;
  reason = why;
  halt_triggered = true;
  resolved_by = none;
}

module _ (env : Env) where
  -- The orders counted so far, if any account answered.
  add_orders : Option ℕ → Result (List Order) → Call (Option ℕ)
  add_orders acc (raised e) = pass acc
  add_orders none (ok orders) = pass (some (length orders))
  add_orders (some n) (ok orders) = pass (some (n + length orders))

  count_orders : String → Client → Option ℕ → Call (Option ℕ)
  unfolding add_orders
  count_orders label client acc = add_orders acc (env.list_orders client)

  abbrev known_count : Option ℕ → ℤ
  known_count none = negsuc 0
  known_count (some n) = pos n

  abbrev state_with : Option Strategy → ℕ → Option ℕ → Call HaltState
  state_with system_row open_pos total = pass (record {
    is_halted = row_halted system_row;
    halt_reason = row_reason system_row;
    open_positions = open_pos;
    open_orders = known_count total;
  })

  abbrev first_count : Call (Option ℕ)
  first_count =
      try_except (get_alpaca env >>= λ client. count_orders "default" client none) (λ e. pass none)

  abbrev counted : Option Strategy → ℕ → Option ℕ → Call HaltState
  counted system_row open_pos first =
      for_clients env count_orders first >>= state_with system_row open_pos

  halt_state_of : Option Strategy → ℕ → Call HaltState
  unfolding count_orders
  halt_state_of system_row open_pos = first_count >>= counted system_row open_pos

  unfoldable pub get_halt_state : Call HaltState
  unfolding halt_state_of
  get_halt_state w =
      halt_state_of (find_strategy system_id w.strategies) (length (keep is_open w.trades)) w

  -- The details go through `tc.json_safe`.
  unfoldable pub record_killswitch_event : Message → EventType → Call ℕ
  unfolding insert_event
  record_killswitch_event why action = do
    raise_if (not env.has_json_safe) attribute_error
    insert_event (killswitch_event why action)

  -- A failure of the heartbeat is only logged.
  abbrev heartbeat : Message → String → Call (Unit {0})
  heartbeat why source = write (λ w.
      if env.heartbeat_ok
      then record w { heartbeats = w.heartbeats ++ halt_beat why source ∷ [] }
      else w)

  abbrev flatten_if : Bool → Call Flattened
  flatten_if true = flatten_all_positions env
  flatten_if false = pass (record { closed_trades = []; failed_trades = [] })

  abbrev notify : Bool → Message → Call (Unit {0})
  notify true message = send_sms env message >>= λ sent. pass tt
  notify false message = pass tt

  -- The end of `halt`: the tallies, the audit row, the heartbeat, the message, the summary.
  unfoldable pub report : Message → String → Bool → Bool → Cancelled → Flattened → Call Summary
  unfolding record_killswitch_event
  report why source close_positions first_halt cancel_result flatten_result = do
    let action = if close_positions then halt_and_flatten else halt_only
    let cancelled_n = length cancel_result.orders
    let flattened_n = length flatten_result.closed_trades
    let failed_n = length cancel_result.failed + length flatten_result.failed_trades
    breaker_id ← record_killswitch_event why action
    heartbeat why source
    notify first_halt (killswitch_text why cancelled_n flattened_n failed_n breaker_id)
    pass (record {
      first_halt = first_halt;
      action = action;
      cancelled_orders = cancelled_n;
      flattened_positions = flattened_n;
      failed_count = failed_n;
      breaker_log_id = breaker_id;
    })

  -- What `halt` does after it has updated the rows.
  unfoldable pub tear_down : Message → String → Bool → Bool → Call Summary
  unfolding report
  tear_down why source close_positions first_halt = do
    cancel_result ← cancel_all_open_orders env
    flatten_result ← flatten_if close_positions
    report why source close_positions first_halt cancel_result flatten_result

  unfoldable pub halt : Message → String → Bool → Call Summary
  unfolding get_halt_state tear_down
  halt why source close_positions = do
    prior_state ← get_halt_state
    write (λ w. record w { strategies = halt_rows why w.strategies })
    tear_down why source close_positions (not prior_state.is_halted)

  reset_halted : String → HaltState → Call ResetResult
  unfolding record_killswitch_event
  reset_halted operator_note state = if not state.is_halted then pass not_halted else do
    write (λ w. record w { strategies = reset_rows (operator_reset operator_note) w.strategies })
    event_id ← record_killswitch_event (operator_reset operator_note) reset_event
    sent ← send_sms env (reset_text (reason_text state.halt_reason) operator_note)
    pass (was_reset state.halt_reason)

  unfoldable pub reset : Bool → String → Call ResetResult
  unfolding reset_halted get_halt_state
  reset confirmed operator_note =
      if not confirmed
      then pass confirmation_required
      else get_halt_state >>= reset_halted operator_note
