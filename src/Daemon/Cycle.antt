-- ===== src/Daemon/Cycle.antt =====
-- reconciliation_daemon.py: one cycle. The advisory lock keeps other processes out and changes
-- nothing that is modelled; loop mode calls the cycle again, whatever it returned.
pub mod Halting
use blackhole_network.Base.{ℕ, Bool, true, not, List, [], ◌∷◌, ◌++◌, length, if◌then◌else◌}
use blackhole_network.Core.Types.{
  divergences, CycleStatus, cycle_ok, cycle_mismatch, cycle_error, cycle_beat,
}
use blackhole_network.Core.World.{Env, Result, ok, raised, Error, integrity_error}
use blackhole_network.Core.Monad.{Call, pass, write, raise_if, try_except, ◌>>=◌, ◌>>◌}
use blackhole_network.Killswitch.Halt.{halt}
use blackhole_network.Daemon.Sources.{
  Book, fetch_alpaca_state, fetch_pg_state, fetch_nj_cache_state,
}
use blackhole_network.Daemon.Compare.{PairMismatch, compare_three_sources}

pub data Outcome : Type 0 where
  fetch_failed : Error → Outcome
  all_agree : Outcome
  dry_run_mismatch halted_on : ℕ → Outcome
  halt_failed : Error → Outcome

abbrev pub Books : Type 0
Books = Book × Book × Book

module _ (env : Env) where
  -- The insert of a heartbeat row, whose new id never conflicts; without its columns the statement raises.
  unfoldable pub record_heartbeat : CycleStatus → ℕ → Call (Unit {0})
  record_heartbeat status mismatches = do
    raise_if (not env.heartbeat_ok) integrity_error
    write (λ w. record w { heartbeats = w.heartbeats ++ cycle_beat status mismatches ∷ [] })

  unfoldable pub fetch_all : Call Books
  fetch_all = do
    at_alpaca ← fetch_alpaca_state env
    at_pg ← fetch_pg_state
    at_nj ← fetch_nj_cache_state env
    pass (at_alpaca, at_pg, at_nj)

  -- What follows the fetch: the exception, or the books.
  on_fetch_error : Error → Call Outcome
  unfolding record_heartbeat
  on_fetch_error e = do
    try_except (record_heartbeat cycle_error 0) (λ _. pass tt)
    pass (fetch_failed e)

  shut_down : ℕ → Call Outcome
  shut_down n =
      try_except
        (halt env (divergences n) "reconciliation_daemon" true >>= λ summary. pass (halted_on n))
        (λ e. pass (halt_failed e))

  on_mismatches : Bool → ℕ → Call Outcome
  unfolding record_heartbeat shut_down
  on_mismatches dry_run n = do
    record_heartbeat cycle_mismatch n
    if dry_run then pass (dry_run_mismatch n) else shut_down n

  -- What follows the comparison.
  on_compared : Bool → List PairMismatch → Call Outcome
  unfolding on_mismatches record_heartbeat
  on_compared dry_run [] = record_heartbeat cycle_ok 0 >> pass all_agree
  on_compared dry_run (m ∷ ms) = on_mismatches dry_run (length (m ∷ ms))

  on_books : Bool → Books → Call Outcome
  unfolding on_compared
  on_books dry_run (at_alpaca, at_pg, at_nj) =
      on_compared dry_run (compare_three_sources at_alpaca at_pg at_nj)

  after_fetch : Bool → Result Books → Call Outcome
  unfolding on_fetch_error on_books
  after_fetch dry_run (ok books) = on_books dry_run books
  after_fetch dry_run (raised e) = on_fetch_error e

  unfoldable pub run_once : Bool → Call Outcome
  unfolding fetch_all after_fetch
  run_once dry_run w = let (r, w') = fetch_all w in after_fetch dry_run r w'
