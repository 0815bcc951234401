-- ===== src/Daemon/Cycle/Halting.antt =====
-- reconciliation_daemon.py: what a cycle does when the sources disagree.
use blackhole_network.Base.{
  ℕ, Bool, false, not, List, [], ◌∷◌, ◌++◌, length, ◌≡◌, ◌≢◌, refl, ap, ◌∙◌, if◌then◌else◌,
}
use blackhole_network.Core.Types.{cycle_mismatch, cycle_beat}
use blackhole_network.Core.World.{World, Env, ok, raised, integrity_error}
use blackhole_network.Core.Monad.{pass, raise_if, write, ◌>>◌}
use blackhole_network.Daemon.Sources.{Book}
use blackhole_network.Daemon.Compare.{PairMismatch, compare_three_sources}
use blackhole_network.Daemon.Cycle.{
  dry_run_mismatch, record_heartbeat, fetch_all, shut_down, on_mismatches, on_compared, on_books,
  after_fetch, run_once,
}

module _ (env : Env) where
  on_compared_differ :
      (dry_run : Bool) (ms : List PairMismatch) (w : World)
      → ms ≢ []
      → on_compared env dry_run ms w ≡ on_mismatches env dry_run (length ms) w
  unfolding on_compared
  on_compared_differ dry_run [] w h = absurd (h refl)
  on_compared_differ dry_run (m ∷ ms) w h = refl

  -- The cycle up to the comparison.
  run_once_differs :
      (dry_run : Bool) (at_alpaca at_pg at_nj : Book) (w : World)
      → (fetch_all env w).0 ≡ ok (at_alpaca, at_pg, at_nj)
      → compare_three_sources at_alpaca at_pg at_nj ≢ []
      → run_once env dry_run w
        ≡ on_mismatches env dry_run
            (length (compare_three_sources at_alpaca at_pg at_nj))
            (fetch_all env w).1
  unfolding run_once after_fetch on_books
  run_once_differs dry_run x y z w e h =
      ap (λ r. after_fetch env dry_run r (fetch_all env w).1) e
      ∙ on_compared_differ dry_run (compare_three_sources x y z) (fetch_all env w).1 h

  -- Where the table lacks them, a cycle that finds the sources different raises before the halt:
  -- the world is what the fetch left.
  pub run_once-unhalted :
      (dry_run : Bool) (at_alpaca at_pg at_nj : Book) (w : World)
      → env.heartbeat_ok ≡ false
      → (fetch_all env w).0 ≡ ok (at_alpaca, at_pg, at_nj)
      → compare_three_sources at_alpaca at_pg at_nj ≢ []
      → run_once env dry_run w ≡ (raised integrity_error, (fetch_all env w).1)
  unfolding on_mismatches record_heartbeat
  run_once-unhalted dry_run x y z w h e ne =
      run_once_differs dry_run x y z w e ne ∙ stops _ (fetch_all env w).1
    where
      stops : (n : ℕ) (v : World) → on_mismatches env dry_run n v ≡ (raised integrity_error, v)
      stops n v =
          ap
            (λ b.
              (raise_if (not b) integrity_error
                  >> write (λ u. record u {
                    heartbeats = u.heartbeats ++ cycle_beat cycle_mismatch n ∷ [];
                  })
                  >> (if dry_run then pass (dry_run_mismatch n) else shut_down env n))
                v)
            h
