-- ===== src/Nasdaq/Run/Errors.antt =====
-- scripts/trading/strategy_nasdaq_long.py and strategy_nasdaq_short.py: what a run raises.
use mathlib.Core.Path.{subst}
use blackhole_network.Base.{
  ℕ, String, true, false, Option, none, some, List, [], ◌∷◌, ◌≡◌, ◌≢◌, refl, sym, arith, All, ◌==◌,
  str_eq, Bool-cases, ◌⊎◌, inl, inr, if◌then◌else◌,
}
use blackhole_network.Core.Types.{Strategy, error, Message, note, Blocked}
use blackhole_network.Core.World.{World, Env, Result, ok, raised, unknown_strategy}
use blackhole_network.Core.Monad.{Call, pass, or_raise, try_except, ◌>>=◌, ◌>>◌}
use blackhole_network.Core.Lifecycle.{
  find_strategy, set_status, get_strategy_meta, update_strategy_status,
}
use blackhole_network.Core.Gate.{should_run}
use blackhole_network.Nasdaq.Run.{guarded, funded, gated, run_main}

-- Every row of the strategy is in error.
abbrev pub InError : String → World → Type 0
InError sid w = All (λ s. str_eq s.id sid ≡ true → s.status ≡ error) w.strategies

set_status-error :
    (sid : String) (why : Message) (rows : List Strategy)
    → All (λ s. str_eq s.id sid ≡ true → s.status ≡ error) (set_status sid error why rows)
set_status-error sid why [] = tt
set_status-error sid why (s ∷ ss) = (
  elim (Bool-cases (str_eq s.id sid)) [
    | inl e ↦ rw e (λ h. refl)
    | inr e ↦ rw e (λ h. absurd (ground arith))
  ],
  set_status-error sid why ss,
)

-- The exit code is 0, or 1 with the strategy in error.
abbrev pub Ended : String → Result ℕ × World → Type 0
Ended sid r = (r.0 ≡ ok 0) ⊎ ((r.0 ≡ ok 1) × InError sid r.1)

module _ (env : Env) (sid : String) (cycle : ℕ → Call (Unit {0})) where
  guarded-Ended : (allocation : ℕ) (w : World) → Ended sid (guarded env sid cycle allocation w)
  unfolding update_strategy_status
  guarded-Ended allocation w = after (cycle allocation w)
    where
      after :
          (r : Result (Unit {0}) × World)
          → Ended sid (
              try_except
                ((λ v. r) >> pass 0)
                (λ e. do
                  update_strategy_status sid error (note "exception in main loop (see log)")
                  pass 1)
                w)
      after (ok a, w') = inl refl
      after (raised e, w') =
          inr (refl, set_status-error sid (note "exception in main loop (see log)") w'.strategies)

  -- A run of a strategy that the gate allows and that has an allocation never raises, whatever fails in it: it returns
  -- 0, or it returns 1 and leaves the strategy in error.
  pub run_main-returns :
      (w : World) (meta : Strategy)
      → (should_run env sid false w).0 ≡ ok none
      → find_strategy sid (should_run env sid false w).1.strategies ≡ some meta
      → meta.capital_allocation ≢ 0
      → Ended sid (run_main env sid cycle w)
  unfolding run_main get_strategy_meta
  run_main-returns w meta h f n = after (should_run env sid false w) h f
    where
      paid : (w' : World) → Ended sid (funded env sid cycle meta.capital_allocation w')
      paid w' =
          let some_money : (meta.capital_allocation == 0) ≡ false = ground arith in
          subst
            (λ b.
              Ended sid ((if b then pass 1 else guarded env sid cycle meta.capital_allocation) w'))
            (sym some_money) (guarded-Ended meta.capital_allocation w')

      row :
          (w' : World) (o : Option Strategy)
          → o ≡ some meta
          → Ended sid (
              (or_raise o (unknown_strategy sid) >>= λ m. funded env sid cycle m.capital_allocation)
                w')
      row w' o e = rw e (paid w')

      after :
          (r : Result (Option Blocked) × World)
          → r.0 ≡ ok none
          → find_strategy sid r.1.strategies ≡ some meta
          → Ended sid (((λ v. r) >>= gated env sid cycle) w)
      after (r, w') h f = rw h (row w' (find_strategy sid w'.strategies) f)
