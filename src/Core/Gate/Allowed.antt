-- ===== src/Core/Gate/Allowed.antt =====
-- When `should_run` lets a strategy through.
use blackhole_network.Base.{
  String, Bool, true, false, none, some, List, ◌≡◌, refl, sym, ap, ◌∙◌, ◌⊎◌, inl, inr, arith,
  str_eq, Option-cases,
}
use blackhole_network.Core.Types.{Strategy, Performance}
use blackhole_network.Core.World.{World, Env, ok}
use mathlib.Core.Path.{subst}
use blackhole_network.Core.Monad.Bind.{bind_eq, bind-eq-ok}
use blackhole_network.Core.Clients.Frame.{load_rules-SameTables}
use blackhole_network.Core.Rules.{load_rules, is_strategy_enabled}
use blackhole_network.Core.Rules.Cache.{rules_of, enabled_in, is_strategy_enabled_lem}
use blackhole_network.Core.Lifecycle.{
  system_id, is_active, is_halted, find_strategy, get_strategy_meta, is_system_halted,
}
use blackhole_network.Core.Breakers.{first_breach, check_circuit_breakers}
use blackhole_network.Core.Gate.{gate_status, gate_enabled, gate_system, should_run}

-- A row that passes: active, and no breaker tripped unless it has no capital.
abbrev pub RowClears : Env → String → List Performance → Strategy → Type 0
RowClears env sid rows s =
    (is_active s.status ≡ true)
    × ((str_eq sid system_id ≡ true)
        ⊎ ((s.capital_allocation ≡ 0)
            ⊎ (first_breach sid env.today s.capital_allocation rows ≡ none)))

gate_status-none :
    (env : Env) (sid : String) (market : Bool) (s : Strategy) (w : World)
    → find_strategy sid w.strategies ≡ some s
    → (gate_status env sid market s.status w).0 ≡ ok none
    → RowClears env sid w.performance s × (market ≡ true → env.market_is_open ≡ ok true)
unfolding gate_status check_circuit_breakers get_strategy_meta
gate_status-none env sid market s w e h = ground arith

-- What `should_run` stands for, in the tables and the rules before the call.
pub record IsCleared (env : Env) (sid : String) (market : Bool) (w : World) : Type 0 where
  pub system_runs :
      (s : Strategy) × (find_strategy system_id w.strategies ≡ some s)
      × (is_halted s.status ≡ false)
  pub enabled : enabled_in sid (rules_of w) ≡ true
  pub row :
      (s : Strategy) × (find_strategy sid w.strategies ≡ some s) × RowClears env sid w.performance s
  pub market_open : market ≡ true → env.market_is_open ≡ ok true

gate_enabled-none :
    (env : Env) (sid : String) (market enabled : Bool) (w : World)
    → (gate_enabled env sid market enabled w).0 ≡ ok none
    → (enabled ≡ true)
      × ((s : Strategy) × (find_strategy sid w.strategies ≡ some s)
          × RowClears env sid w.performance s)
      × (market ≡ true → env.market_is_open ≡ ok true)
unfolding gate_enabled get_strategy_meta
gate_enabled-none env sid market false w h = ground arith
gate_enabled-none env sid market true w h = elim (Option-cases (find_strategy sid w.strategies)) [
  | inl e ↦ ground arith
  | inr (s, e) ↦
      let p = gate_status-none env sid market s w e (ground arith) in (refl, (s, e, p.0), p.1)
]

system_halted_eq :
    (w : World) {b : Bool}
    → (is_system_halted w).0 ≡ ok b
    → (s : Strategy) × (find_strategy system_id w.strategies ≡ some s) × (is_halted s.status ≡ b)
unfolding is_system_halted get_strategy_meta
system_halted_eq w {b} h = elim (Option-cases (find_strategy system_id w.strategies)) [
  | inl e ↦ ground arith
  | inr (s, e) ↦ (s, e, ground arith)
]

pub system_halted_same : (w : World) → (is_system_halted w).1 ≡ w
unfolding is_system_halted get_strategy_meta
system_halted_same w = elim (Option-cases (find_strategy system_id w.strategies)) [
  | inl e ↦ ground arith
  | inr (s, e) ↦ ground arith
]

gate_system-none :
    (env : Env) (sid : String) (market halt : Bool) (w : World)
    → (gate_system env sid market halt w).0 ≡ ok none
    → (halt ≡ false)
      × (enabled_in sid (rules_of w) ≡ true)
      × ((s : Strategy) × (find_strategy sid w.strategies ≡ some s)
          × RowClears env sid w.performance s)
      × (market ≡ true → env.market_is_open ≡ ok true)
unfolding gate_system
gate_system-none env sid market true w h = absurd (cc h)
gate_system-none env sid market false w h =
    let same = load_rules-SameTables.at w in
    let step =
      bind_eq (is_strategy_enabled sid) (gate_enabled env sid market) w
        (is_strategy_enabled_lem sid w) in
    let (on, (s, e, clears), open_market) =
      gate_enabled-none env sid market (enabled_in sid (rules_of w)) (load_rules w).1
        (sym (ap (λ p. p.0) step) ∙ h) in
    (
      refl,
      on,
      (s, ground arith, subst (λ rows. RowClears env sid rows s) same.performance clears),
      open_market,
    )

-- A strategy that is let through meets every condition.
pub should_run-IsCleared :
    (env : Env) (sid : String) (market : Bool) (w : World)
    → (should_run env sid market w).0 ≡ ok none
    → IsCleared env sid market w
unfolding should_run
should_run-IsCleared env sid market w h =
    let (halt, e, rest) = bind-eq-ok is_system_halted (gate_system env sid market) w h in
    let (running, on, row, open_market) =
      gate_system-none env sid market halt w (
        subst (λ v. (gate_system env sid market halt v).0 ≡ ok none) (system_halted_same w) rest) in
    let (s, found, state) = system_halted_eq w e in
    record {
      system_runs = (s, found, state ∙ running);
      enabled = on;
      row = row;
      market_open = open_market;
    }
