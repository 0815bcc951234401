-- ===== src/Core/Breakers.antt =====
-- trading_core.py: the three tiers of circuit breakers, tripping and resetting them.
use blackhole_network.Base.{
  ℕ, ◌+◌, ◌*◌, String, Bool, true, false, ◌&&◌, Option, none, some, List, [], ◌∷◌, ◌++◌, map,
  length, leb, ◌==◌, str_eq, if◌then◌else◌, is_some,
}
use blackhole_network.Base.Int.{ℤ, pos, ◌+ℤ◌, ◌-ℤ◌, neg, scale, ltb_ℤ}
use blackhole_network.Core.Types.{
  Status, active, paused, halted, BreakerType, daily_loss_5pct, weekly_loss_10pct, drawdown_15pct,
  Message, breaker_reason, drawdown_trip, breaker_reset, breaker_alert, Severity, of_status,
  Strategy, BreakerEvent, circuit_breaker, of_breaker, Scope, strategy_scope, system_scope,
  Performance,
}
use blackhole_network.Core.World.{Env, ok, raised, integrity_error}
use blackhole_network.Core.Monad.{Call, pass, read, write, ◌>>=◌, ◌>>◌}
use blackhole_network.Core.Lifecycle.{
  system_id, set_status, find_strategy, get_strategy_meta, update_strategy_status,
}

-- The three queries over strategy_performance.
abbrev pub daily_row : String → ℕ → List Performance → Option ℤ
daily_row sid today [] = none
daily_row sid today (p ∷ ps) =
    if str_eq p.strategy_id sid && p.date == today then some p.daily_pnl else daily_row sid today ps

abbrev pub weekly_sum : String → ℕ → List Performance → ℤ
weekly_sum sid today [] = pos 0
weekly_sum sid today (p ∷ ps) =
    if str_eq p.strategy_id sid && (leb today (p.date + 7) && leb p.date today)
    then p.daily_pnl +ℤ weekly_sum sid today ps
    else weekly_sum sid today ps

-- `MAX` skips nulls.
abbrev max_of : Option ℤ → Option ℤ → Option ℤ
max_of none b = b
max_of (some a) none = some a
max_of (some a) (some b) = if ltb_ℤ a b then some b else some a

abbrev pub max_column : (Performance → Option ℤ) → String → List Performance → Option ℤ
max_column column sid [] = none
max_column column sid (p ∷ ps) =
    max_of (if str_eq p.strategy_id sid then column p else none) (max_column column sid ps)

-- daily_pnl < -allocation * 0.05
abbrev pub daily_breach : ℕ → Option ℤ → Bool
daily_breach allocation none = false
daily_breach allocation (some pnl) = ltb_ℤ (scale 100 pnl) (neg (pos (5 * allocation)))

-- weekly < -allocation * 0.10
abbrev pub weekly_breach : ℕ → ℤ → Bool
weekly_breach allocation weekly = ltb_ℤ (scale 100 weekly) (neg (pos (10 * allocation)))

-- hwm > 0 and (cum - hwm) / hwm < -0.15, multiplied out by 100 * hwm
abbrev pub drawdown_breach : Option ℤ → Option ℤ → Bool
drawdown_breach none cum = false
drawdown_breach (some hwm) none =
    ltb_ℤ (pos 0) hwm && ltb_ℤ (scale 100 (pos 0 -ℤ hwm)) (neg (scale 15 hwm))
drawdown_breach (some hwm) (some cum) =
    ltb_ℤ (pos 0) hwm && ltb_ℤ (scale 100 (cum -ℤ hwm)) (neg (scale 15 hwm))

-- The first breaker that is tripped, over the rows of one strategy.
pub first_breach : String → ℕ → ℕ → List Performance → Option BreakerType
first_breach sid today allocation rows =
    if daily_breach allocation (daily_row sid today rows)
    then some daily_loss_5pct
    else if weekly_breach allocation (weekly_sum sid today rows)
    then some weekly_loss_10pct
    else if drawdown_breach (max_column (λ p. p.high_water_mark) sid rows)
        (max_column (λ p. p.cumulative_pnl) sid rows)
    then some drawdown_15pct
    else none

module _ (env : Env) where
  unfoldable pub check_circuit_breakers : String → Call (Option BreakerType)
  unfolding get_strategy_meta first_breach
  check_circuit_breakers sid = if str_eq sid system_id then pass none else do
    meta ← get_strategy_meta sid
    rows ← read (λ w. w.performance)
    pass (
        if meta.capital_allocation == 0
        then none
        else first_breach sid env.today meta.capital_allocation rows)

unfoldable pub breaker_status : BreakerType → Status
breaker_status daily_loss_5pct = paused
breaker_status _ = halted

unfoldable pub breaker_scope : BreakerType → Scope
breaker_scope drawdown_15pct = system_scope
breaker_scope _ = strategy_scope

-- `_send_alert`: the alert is handed to the webhook.
unfoldable pub send_alert : Severity → Message → Call (Unit {0})
send_alert severity message =
    write (λ w. record w {
      alerts = w.alerts ++ record { severity = severity; message = message } ∷ [];
    })

-- The foreign key of circuit_breaker_log.strategy_id.
abbrev pub names_row : Option String → List Strategy → Bool
names_row none rows = true
names_row (some sid) rows = is_some (find_strategy sid rows)

abbrev pub inserted : Bool → BreakerEvent → Call ℕ
inserted true event w = (ok event.id, record w { events = w.events ++ event ∷ [] })
inserted false event w = (raised integrity_error, w)

-- `INSERT INTO circuit_breaker_log … RETURNING id`; rows are never deleted, so the id counts them.
unfoldable pub insert_event : (ℕ → BreakerEvent) → Call ℕ
insert_event row w =
    let event = row (length w.events + 1) in
    inserted (names_row event.strategy_id w.strategies) event w

abbrev pub is_system_scope : Scope → Bool
is_system_scope system_scope = true
is_system_scope strategy_scope = false

abbrev pub breaker_event : String → BreakerType → Message → ℕ → BreakerEvent
unfolding breaker_status breaker_scope
breaker_event sid b why id = record {
  id = id;
  event_class = circuit_breaker;
  event_type = of_breaker b;
  severity = of_status (breaker_status b);
  strategy_id = some sid;
  affects_scope = breaker_scope b;
  reason = why;
  halt_triggered = true;
  resolved_by = none;
}

abbrev pub alert_trip : String → BreakerType → Message → ℕ → Call ℕ
unfolding breaker_status send_alert
alert_trip sid b why log_id =
    send_alert (of_status (breaker_status b)) (breaker_alert b sid why) >> pass log_id

unfoldable pub trip_breaker : String → BreakerType → Message → Call ℕ
unfolding breaker_status breaker_scope update_strategy_status insert_event
trip_breaker sid b why = do
  update_strategy_status sid (breaker_status b) (breaker_reason b why)
  write (λ w.
      if is_system_scope (breaker_scope b)
      then record w {
        strategies = set_status system_id halted (drawdown_trip sid why) w.strategies;
      }
      else w)
  insert_event (breaker_event sid b why) >>= alert_trip sid b why

abbrev is_strategy : String → Option String → Bool
is_strategy sid none = false
is_strategy sid (some s) = str_eq s sid

abbrev resolve : String → String → BreakerEvent → BreakerEvent
resolve sid who ev = elim ev.resolved_by [
  | some by ↦ ev
  | none ↦ if is_strategy sid ev.strategy_id then record ev { resolved_by = some who } else ev
]

unfoldable pub reset_breaker : String → String → String → Call (Unit {0})
unfolding update_strategy_status
reset_breaker sid who notes = do
  write (λ w. record w { events = map (resolve sid who) w.events })
  update_strategy_status sid active (breaker_reset who notes)
