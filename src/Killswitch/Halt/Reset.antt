-- ===== src/Killswitch/Halt/Reset.antt =====
-- master_killswitch.py: a reset makes every halted row active again.
use blackhole_network.Base.{
  String, Bool, true, not, some, List, [], ◌∷◌, ◌≡◌, ap, ◌∙◌, arith, All, Bool-cases, str_eq, inl,
  inr, if◌then◌else◌,
}
use blackhole_network.Core.Types.{Message, Strategy, operator_reset, active, halted}
use blackhole_network.Core.World.{World, Env}
use blackhole_network.Core.Monad.Bind.{bind_ok}
use blackhole_network.Core.Lifecycle.{system_id, find_strategy, is_halted, is_active}
use blackhole_network.Core.Halt.{halt_rows}
use blackhole_network.Core.Gate.Halted.{AllHalted, halt_rows-AllHalted, find-AllHalted}
use blackhole_network.Killswitch.Teardown.{send_sms}
use blackhole_network.Killswitch.Halt.{
  HaltState, get_halt_state, reset_rows, reset_halted, reset, halt, record_killswitch_event,
}
use blackhole_network.Killswitch.Halt.Outcome.{get_halt_state-Returns, tear_down-SameRows}
use blackhole_network.Killswitch.Halt.Audit.{
  was_halted, get_halt_state-SameStatus, get_halt_state-flag,
}

-- Every row is active.
abbrev pub AllActive : List Strategy → Type 0
AllActive = All (λ s. is_active s.status ≡ true)

reset_rows-AllActive :
    (why : Message) (rows : List Strategy) → AllHalted rows → AllActive (reset_rows why rows)
unfolding reset_rows
reset_rows-AllActive why [] h = tt
reset_rows-AllActive why (s ∷ ss) h = (ground arith, reset_rows-AllActive why ss h.1)

-- What a reset makes of one row.
abbrev pub revived : Message → Strategy → Strategy
revived why s = if is_halted s.status then record s { status = active; reason = why } else s

find-reset_rows :
    (sid : String) (why : Message) (rows : List Strategy) (s : Strategy)
    → find_strategy sid rows ≡ some s
    → find_strategy sid (reset_rows why rows) ≡ some (revived why s)
unfolding reset_rows
find-reset_rows sid why [] s h = absurd (cc h)
find-reset_rows sid why (r ∷ rows) s h = ground (arith, find-reset_rows sid why rows s)

find-halt_rows :
    (sid : String) (why : Message) (rows : List Strategy) (s : Strategy)
    → find_strategy sid rows ≡ some s
    → (t : Strategy) × (find_strategy sid (halt_rows why rows) ≡ some t)
unfolding halt_rows
find-halt_rows sid why [] s h = absurd (cc h)
find-halt_rows sid why (r ∷ rows) s h = elim (Bool-cases (str_eq r.id sid)) [
  | inl e ↦
      (if is_halted r.status then r else record r { status = halted; reason = why }, ground arith)
  | inr e ↦ let (t, k) = find-halt_rows sid why rows s (ground arith) in (t, ground arith)
]

module _ (env : Env) where
  reset_halted_rows :
      (operator_note : String) (s : HaltState) (w : World)
      → s.is_halted ≡ true
      → (reset_halted env operator_note s w).1.strategies
        ≡ reset_rows (operator_reset operator_note) w.strategies
  unfolding reset_halted record_killswitch_event send_sms
  reset_halted_rows operator_note s w h = ground arith

  reset_strategies :
      (operator_note : String) (w : World)
      → was_halted w ≡ true
      → (reset env true operator_note w).1.strategies
        ≡ reset_rows (operator_reset operator_note) w.strategies
  unfolding reset
  reset_strategies operator_note w h =
      let (state, e) = (get_halt_state-Returns env).at w in
      let k = (get_halt_state-SameStatus env).at w in
      rw (bind_ok (get_halt_state env) (reset_halted env operator_note) w e) (
        reset_halted_rows operator_note state _ (get_halt_state-flag env w state e ∙ h)
        ∙ ap (reset_rows (operator_reset operator_note)) k.strategies)

  halt_strategies :
      (why : Message) (source : String) (flatten : Bool) (w : World)
      → (halt env why source flatten w).1.strategies ≡ halt_rows why w.strategies
  unfolding halt
  halt_strategies why source flatten w =
      let (state, e) = (get_halt_state-Returns env).at w in
      let k = (get_halt_state-SameStatus env).at w in
      rw (bind_ok (get_halt_state env) _ w e) (
        ((tear_down-SameRows env why source flatten (not state.is_halted)).at _).strategies
        ∙ ap (halt_rows why) k.strategies)

  -- A confirmed reset of a halted system, whether it returns or raises: the row of a strategy that
  -- was halted is active with the operator's note, any other row is as it was.
  pub reset-revives :
      (operator_note : String) (w : World) (sid : String) (s : Strategy)
      → was_halted w ≡ true
      → find_strategy sid w.strategies ≡ some s
      → find_strategy sid (reset env true operator_note w).1.strategies
        ≡ some (revived (operator_reset operator_note) s)
  reset-revives operator_note w sid s h found =
      rw (reset_strategies operator_note w h)
        (find-reset_rows sid (operator_reset operator_note) w.strategies s found)

  -- A halt and a confirmed reset make every row active, also one that was paused or in error before
  -- the halt, if there is a system row.
  pub halt-reset :
      (why : Message) (source : String) (flatten : Bool) (operator_note : String) (w : World)
      (s : Strategy)
      → find_strategy system_id w.strategies ≡ some s
      → AllActive (reset env true operator_note (halt env why source flatten w).1).1.strategies
  halt-reset why source flatten operator_note w s found =
      let e = halt_strategies why source flatten w in
      let (t, here) = find-halt_rows system_id why w.strategies s found in
      let all = halt_rows-AllHalted why w.strategies in
      let halted_row = find-AllHalted system_id (halt_rows why w.strategies) t all here in
      let flag : was_halted (halt env why source flatten w).1 ≡ true = rw e (rw here halted_row) in
      rw (reset_strategies operator_note (halt env why source flatten w).1 flag)
        (rw e (reset_rows-AllActive (operator_reset operator_note) _ all))
