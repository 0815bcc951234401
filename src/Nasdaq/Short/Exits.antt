-- ===== src/Nasdaq/Short/Exits.antt =====
-- scripts/trading/strategy_nasdaq_short.py: the exits against the entry of one run.
use blackhole_network.Base.{true, false, Option, none, some, List, [], ◌∷◌, ◌≡◌, arith}
use blackhole_network.Nasdaq.Signal.{RegressionScore, SpyState, evaluate_short_signal}
use blackhole_network.Nasdaq.Signal.Ranking.{short_leader-other}
use blackhole_network.Nasdaq.Short.{
  spy_reclaimed_for_streak, spy_reclaim_streak_required, qld_wins_again,
}

-- Where the entry signal fires, neither exit by signal holds: on the same scores and the same state of
-- SPY a run that closes the shorts does not open them again.
pub evaluate_short_signal-excludes_exits :
    (scores : List RegressionScore) (spy : Option SpyState)
    → (evaluate_short_signal scores spy).fires ≡ true
    → (spy_reclaimed_for_streak spy spy_reclaim_streak_required ≡ false)
      × (qld_wins_again scores ≡ false)
unfolding evaluate_short_signal spy_reclaimed_for_streak qld_wins_again
evaluate_short_signal-excludes_exits [] spy h = absurd (ground arith)
evaluate_short_signal-excludes_exits (s ∷ ss) none h = absurd (ground arith)
evaluate_short_signal-excludes_exits (s ∷ ss) (some spy) h =
    (ground arith, short_leader-other s.ticker (ground arith))
