-- ===== src/Core/Gate/Halted.antt =====
-- A halted system and a tripped breaker keep strategies from running.
use mathlib.Core.Path.{subst}
use blackhole_network.Base.{
  String, Bool, true, false, List, [], ◌∷◌, Option, none, some, Bool-cases, ◌&&◌, ◌≡◌, refl, sym,
  ap, ◌∙◌, ◌≢◌, ◌⊎◌, inl, inr, arith, str_eq, eq_iff, All, length, ◌+◌,
}
use blackhole_network.Core.Types.{
  Strategy, Status, halted, Message, mismatch_halt, drawdown_trip, breaker_reason, BreakerType,
  Mismatch, drawdown_15pct,
}
use blackhole_network.Core.World.{World, Env, ok, raised, integrity_error}
use blackhole_network.Core.Monad.{◌>>=◌}
use blackhole_network.Core.Lifecycle.{system_id, is_active, is_halted, find_strategy, set_status}
use blackhole_network.Core.Breakers.{
  names_row, inserted, insert_event, send_alert, breaker_event, alert_trip, trip_breaker,
  breaker_status, breaker_scope, is_system_scope,
}
use blackhole_network.Core.Halt.{
  halt_rows, halt_all_trading, handle_mismatch, mismatch_event, halt_on,
}
use blackhole_network.Core.Gate.{should_run}
use blackhole_network.Core.Gate.Allowed.{should_run-IsCleared}

-- Every row is halted.
abbrev pub AllHalted : List Strategy → Type 0
AllHalted = All (λ s. is_halted s.status ≡ true)

pub halt_rows-AllHalted : (why : Message) (rows : List Strategy) → AllHalted (halt_rows why rows)
unfolding halt_rows
halt_rows-AllHalted why [] = tt
halt_rows-AllHalted why (s ∷ ss) = (ground arith, halt_rows-AllHalted why ss)

pub find-AllHalted :
    (sid : String) (rows : List Strategy) (s : Strategy)
    → AllHalted rows
    → find_strategy sid rows ≡ some s
    → is_halted s.status ≡ true
find-AllHalted sid [] s h e = absurd (cc e)
find-AllHalted sid (r ∷ rows) s h e = ground (arith, find-AllHalted sid rows s h.1)

-- While every row is halted, nothing is let through.
pub should_run-AllHalted :
    (env : Env) (sid : String) (market : Bool) (w : World)
    → AllHalted w.strategies
    → (should_run env sid market w).0 ≢ ok none
should_run-AllHalted env sid market w h e =
    let (s, found, running) = (should_run-IsCleared env sid market w e).system_runs in
    cc (find-AllHalted system_id w.strategies s h found, running)

-- After a mismatch is handled whose strategy, if it names one, has a row, every row of trading_strategies is halted, and no strategy is let
-- through, whatever the rules, the market and the breakers say.
pub handle_mismatch-halts :
    (env : Env) (sid : String) (market : Bool) (w : World) (m : Mismatch)
    → names_row m.strategy_id w.strategies ≡ true
    → AllHalted (handle_mismatch m w).1.strategies
      × ((should_run env sid market (handle_mismatch m w).1).0 ≢ ok none)
unfolding handle_mismatch insert_event halt_all_trading send_alert
handle_mismatch-halts env sid market w m named =
    let h = halt_rows-AllHalted (mismatch_halt m.kind m.ticker) w.strategies in
    let all =
      subst
        (λ b.
          AllHalted
            ((inserted b (mismatch_event m (length w.events + 1)) >>= halt_on m) w).1.strategies)
        (sym named) h in
    (all, should_run-AllHalted env sid market _ all)

-- A mismatch of a strategy without a row raises at the audit row, before the halt: nothing changes.
pub handle_mismatch-raises :
    (w : World) (m : Mismatch)
    → names_row m.strategy_id w.strategies ≡ false
    → handle_mismatch m w ≡ (raised integrity_error, w)
unfolding handle_mismatch insert_event
handle_mismatch-raises w m unnamed =
    ap (λ b. (inserted b (mismatch_event m (length w.events + 1)) >>= halt_on m) w) unnamed

abbrev updated : Bool → Status → Message → Option Strategy → Option Strategy
updated false st why row = row
updated true st why none = none
updated true st why (some s) = some (record s { status = st; reason = why })

-- The update reaches the rows of its id, and no other.
pub find-set_status :
    (sid other : String) (st : Status) (why : Message) (rows : List Strategy)
    → find_strategy other (set_status sid st why rows)
      ≡ updated (str_eq other sid) st why (find_strategy other rows)
find-set_status sid other st why [] = elim (Bool-cases (str_eq other sid)) [
  | inl e ↦ rw e refl
  | inr e ↦ rw e refl
]
find-set_status sid other st why (r ∷ rows) =
    let ih = find-set_status sid other st why rows in
    elim (Bool-cases (str_eq r.id sid)) [
      | inl e ↦ rw e (ground (arith, eq_iff other sid, eq_iff r.id sid, eq_iff r.id other, ih))
      | inr e ↦ rw e (ground (arith, eq_iff other sid, eq_iff r.id sid, eq_iff r.id other, ih))
    ]

-- The audit row of a trip, written or refused, and its alert leave the rows as they are.
log_trip-rows :
    (sid : String) (b : BreakerType) (why : Message) (w : World)
    → ((insert_event (breaker_event sid b why) >>= alert_trip sid b why) w).1.strategies
      ≡ w.strategies
unfolding insert_event send_alert breaker_status breaker_scope
log_trip-rows sid b why w = go (names_row (some sid) w.strategies)
  where
    go :
        (named : Bool)
        → ((inserted named (breaker_event sid b why (length w.events + 1)) >>= alert_trip sid b why)
            w).1.strategies
          ≡ w.strategies
    go true = refl
    go false = refl

-- The rows after a trip.
tripped_rows :
    (sid : String) (b : BreakerType) (why : Message) (w : World) (other : String)
    → find_strategy other (trip_breaker sid b why w).1.strategies
      ≡ updated
          (is_system_scope (breaker_scope b) && str_eq other system_id)
          halted
          (drawdown_trip sid why)
          (updated
            (str_eq other sid)
            (breaker_status b)
            (breaker_reason b why)
            (find_strategy other w.strategies))
unfolding trip_breaker breaker_status
tripped_rows sid drawdown_15pct why w other =
    let rows = set_status sid halted (breaker_reason drawdown_15pct why) w.strategies in
    ap (find_strategy other) (
      log_trip-rows sid drawdown_15pct why
        (record w { strategies = set_status system_id halted (drawdown_trip sid why) rows }))
    ∙ find-set_status system_id other halted (drawdown_trip sid why) rows
    ∙ ap (updated (str_eq other system_id) halted (drawdown_trip sid why))
        (find-set_status sid other halted (breaker_reason drawdown_15pct why) w.strategies)
tripped_rows sid b why w other =
    let rows = set_status sid (breaker_status b) (breaker_reason b why) w.strategies in
    ap (find_strategy other) (log_trip-rows sid b why (record w { strategies = rows }))
    ∙ find-set_status sid other (breaker_status b) (breaker_reason b why) w.strategies

updated_stopped :
    (a : Bool) (st : Status) (why : Message) (b : BreakerType) (why' : Message)
    (row : Option Strategy) (s : Strategy)
    → st ≡ halted
    → updated a st why (updated true (breaker_status b) why' row) ≡ some s
    → is_active s.status ≡ false
unfolding breaker_status
updated_stopped a st why b why' row s h e = ground arith

updated_halted :
    (why : Message) (row : Option Strategy) (s : Strategy)
    → updated true halted why row ≡ some s
    → is_halted s.status ≡ true
updated_halted why row s e = ground arith

drawdown_scope : (b : BreakerType) → b ≡ drawdown_15pct → is_system_scope (breaker_scope b) ≡ true
unfolding breaker_scope
drawdown_scope b e = ground arith

-- A tripped breaker stops its strategy, and a drawdown stops every strategy: none of them is let
-- through afterwards.
pub trip_breaker-blocks :
    (env : Env) (sid other : String) (b : BreakerType) (why : Message) (market : Bool) (w : World)
    → (other ≡ sid) ⊎ (b ≡ drawdown_15pct)
    → (should_run env other market (trip_breaker sid b why w).1).0 ≢ ok none
trip_breaker-blocks env sid other b why market w (inl same) e =
    let (s, found, active_row) = (should_run-IsCleared env other market _ e).row in
    let stopped =
      updated_stopped (is_system_scope (breaker_scope b) && str_eq other system_id) halted
        (drawdown_trip sid why) b (breaker_reason b why) (find_strategy other w.strategies) s refl
        (subst
          (λ t.
            updated (is_system_scope (breaker_scope b) && str_eq other system_id) halted
              (drawdown_trip sid why)
              (updated t (breaker_status b) (breaker_reason b why)
                (find_strategy other w.strategies))
            ≡ some s)
          ((eq_iff other sid).1 same) (sym (tripped_rows sid b why w other) ∙ found)) in
    cc (stopped, active_row.0)
trip_breaker-blocks env sid other b why market w (inr d) e =
    let (s, found, running) = (should_run-IsCleared env other market _ e).system_runs in
    let flag = ap (λ t. t && true) (drawdown_scope b d) in
    let stopped =
      updated_halted (drawdown_trip sid why)
        (updated (str_eq system_id sid) (breaker_status b) (breaker_reason b why)
          (find_strategy system_id w.strategies))
        s
        (subst
          (λ t.
            updated t halted (drawdown_trip sid why) (
              updated (str_eq system_id sid) (breaker_status b) (breaker_reason b why)
                (find_strategy system_id w.strategies))
            ≡ some s)
          flag (sym (tripped_rows sid b why w system_id) ∙ found)) in
    cc (stopped, running)

-- A daily or weekly trip, and the drawdown of another strategy, leave a strategy's row as it is,
-- unless it is the row of the strategy that tripped or, in a drawdown, the system row.
pub trip_breaker-others :
    (sid other : String) (b : BreakerType) (why : Message) (w : World)
    → str_eq other sid ≡ false
    → (b ≢ drawdown_15pct) ⊎ (str_eq other system_id ≡ false)
    → find_strategy other (trip_breaker sid b why w).1.strategies ≡ find_strategy other w.strategies
unfolding breaker_scope
trip_breaker-others sid other b why w ne h = ground (arith, tripped_rows sid b why w other)
