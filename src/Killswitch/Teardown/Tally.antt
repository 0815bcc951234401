-- ===== src/Killswitch/Teardown/Tally.antt =====
-- master_killswitch.py: every open trade is tallied once, as closed or as failed.
use blackhole_network.Base.{
  ℕ, ◌+◌, List, [], ◌∷◌, ◌++◌, length, length-append, keep, ◌≡◌, refl, ap, ◌∙◌, arith,
}
use blackhole_network.Core.Types.{Trade}
use blackhole_network.Core.World.{World, Env, Result, ok, raised}
use blackhole_network.Core.Monad.{pass, answer, try_except, ◌>>=◌}
use blackhole_network.Core.Monad.Bind.{bind_ok}
use blackhole_network.Core.Trades.{Closed, is_open}
use blackhole_network.Killswitch.Teardown.{
  Flattened, flatten_one, flatten_step, flatten_each, flatten_all_positions,
}

abbrev pub tally : Flattened → ℕ
tally f = length f.closed_trades + length f.failed_trades

-- The call returns, and its tally is `n`.
abbrev pub HasTally : ℕ → Result Flattened → Type 0
HasTally n r = (f : Flattened) × (r ≡ ok f) × (tally f ≡ n)

module _ (env : Env) where
  step-HasTally :
      (t : Trade) (acc : Flattened) (r : Result Closed) (w : World)
      → HasTally
          (tally acc + 1)
          (try_except
            (answer r >>= λ c. pass (record acc { closed_trades = acc.closed_trades ++ c ∷ [] }))
            (λ e. pass (record acc { failed_trades = acc.failed_trades ++ t.id ∷ [] }))
            w).0
  step-HasTally t acc (ok c) w = (
    record acc { closed_trades = acc.closed_trades ++ c ∷ [] },
    refl,
    omega (arith, length-append acc.closed_trades (c ∷ [])),
  )
  step-HasTally t acc (raised e) w = (
    record acc { failed_trades = acc.failed_trades ++ t.id ∷ [] },
    refl,
    omega (arith, length-append acc.failed_trades (t.id ∷ [])),
  )

  flatten_each-HasTally :
      (ts : List Trade) (acc : Flattened) (w : World)
      → HasTally (tally acc + length ts) (flatten_each env ts acc w).0
  unfolding flatten_each
  flatten_each-HasTally [] acc w = (acc, refl, omega arith)
  flatten_each-HasTally (t ∷ ts) acc w =
      let (f, e, n) = step-HasTally t acc (flatten_one env t w).0 (flatten_one env t w).1 in
      let (g, e', n') = flatten_each-HasTally ts f (flatten_step env t acc w).1 in
      (
        g,
        ap (λ p. p.0) (bind_ok (flatten_step env t acc) (flatten_each env ts) w e) ∙ e',
        omega arith,
      )

  -- Flattening returns, whatever the broker and the tables answer, and the closed and the failed
  -- trades together are as many as the open trades.
  pub flatten_all_positions-HasTally :
      (w : World) → HasTally (length (keep is_open w.trades)) (flatten_all_positions env w).0
  unfolding flatten_all_positions
  flatten_all_positions-HasTally w =
      let start : Flattened = record { closed_trades = []; failed_trades = [] } in
      let (f, e, n) = flatten_each-HasTally (keep is_open w.trades) start w in (f, e, omega arith)
