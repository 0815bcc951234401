-- ===== src/Core/Gate/Passes.antt =====
-- A strategy that meets every condition is let through, so `should_run` decides `IsCleared`.
use mathlib.Core.Path.{subst}
use blackhole_network.Base.{String, Bool, true, none, some, ◌≡◌, sym, ap, ◌∙◌, ◌↔◌, arith}
use blackhole_network.Core.Types.{Strategy}
use blackhole_network.Core.World.{World, Env, ok}
use blackhole_network.Core.Monad.Bind.{bind_eq}
use blackhole_network.Core.Clients.Frame.{load_rules-SameTables}
use blackhole_network.Core.Rules.{load_rules, is_strategy_enabled}
use blackhole_network.Core.Rules.Cache.{is_strategy_enabled_lem}
use blackhole_network.Core.Lifecycle.{
  system_id, is_halted, find_strategy, get_strategy_meta, is_system_halted,
}
use blackhole_network.Core.Breakers.{check_circuit_breakers}
use blackhole_network.Core.Gate.{gate_status, gate_enabled, gate_system, should_run}
use blackhole_network.Core.Gate.Allowed.{RowClears, IsCleared, should_run-IsCleared}

gate_enabled_cleared :
    (env : Env) (sid : String) (market : Bool) (s : Strategy) (w : World)
    → find_strategy sid w.strategies ≡ some s
    → RowClears env sid w.performance s
    → (market ≡ true → env.market_is_open ≡ ok true)
    → (gate_enabled env sid market true w).0 ≡ ok none
unfolding gate_enabled gate_status check_circuit_breakers get_strategy_meta
gate_enabled_cleared env sid market s w e clears m = ground arith

is_system_halted_eq :
    (w : World) (s : Strategy)
    → find_strategy system_id w.strategies ≡ some s
    → is_system_halted w ≡ (ok (is_halted s.status), w)
unfolding is_system_halted get_strategy_meta
is_system_halted_eq w s e = ground arith

should_run_cleared :
    (env : Env) (sid : String) (market : Bool) (w : World)
    → IsCleared env sid market w
    → (should_run env sid market w).0 ≡ ok none
unfolding should_run gate_system
should_run_cleared env sid market w c =
    let (s, found, running) = c.system_runs in
    let (r, own, clears) = c.row in
    let same = load_rules-SameTables.at w in
    let first =
      bind_eq is_system_halted (gate_system env sid market) w
        (is_system_halted_eq w s found ∙ ap (λ b. (ok b, w)) running) in
    let next =
      bind_eq (is_strategy_enabled sid) (gate_enabled env sid market) w
        (is_strategy_enabled_lem sid w ∙ ap (λ b. (ok b, (load_rules w).1)) c.enabled) in
    ap (λ p. p.0) first
    ∙ ap (λ p. p.0) next
    ∙ gate_enabled_cleared env sid market r (load_rules w).1 (ground arith)
        (subst (λ rows. RowClears env sid rows r) (sym same.performance) clears) c.market_open

-- `should_run` allows a strategy exactly when the system row is there and not halted, the flag of
-- its block in the current rules is on, its row is active and trips no breaker (a row with no
-- capital, and the system row itself, trip none), and, where the market is asked for, it is open.
pub should_run-allows_iff :
    (env : Env) (sid : String) (market : Bool) (w : World)
    → ((should_run env sid market w).0 ≡ ok none) ↔ IsCleared env sid market w
should_run-allows_iff env sid market w =
    (should_run-IsCleared env sid market w, should_run_cleared env sid market w)
