-- ===== src/Nasdaq/Signal/Ranking.antt =====
-- nasdaq_signal.py: the ranking, and when the signals fire.
use mathlib.Core.Path.{subst}
use blackhole_network.Base.{
  ℕ, ◌+◌, ◌≤◌, ◌<◌, String, true, false, Option, none, some, List, [], ◌∷◌, ◌≡◌, ◌↔◌, refl, arith,
  All, All-map, Bool-cases, inl, inr, elem, str_eq, eq_iff, if◌then◌else◌,
}
use blackhole_network.Base.Int.{◌≤ℤ◌, ltb_ℤ}
use blackhole_network.Nasdaq.Signal.{
  RegressionScore, park, SpyState, long_leader, park_ticker, short_leaders, insert_score, rank,
  evaluate_long_signal, evaluate_short_signal,
}

-- No score is above the one before it.
abbrev pub Descending : List RegressionScore → Type 0
Descending [] = Unit
Descending (s ∷ ss) = All (λ t. t.intercept ≤ℤ s.intercept) ss × Descending ss

insert_score-All :
    (P : RegressionScore → Type 0) (s : RegressionScore) (ss : List RegressionScore)
    → P s
    → All P ss
    → All P (insert_score s ss)
unfolding insert_score
insert_score-All P s [] h k = (h, tt)
insert_score-All P s (t ∷ ts) h k = elim (Bool-cases (ltb_ℤ s.intercept t.intercept)) [
  | inl e ↦ rw e (k.0, insert_score-All P s ts h k.1)
  | inr e ↦ rw e (h, k)
]

insert_score-Descending :
    (s : RegressionScore) (ss : List RegressionScore)
    → Descending ss
    → Descending (insert_score s ss)
unfolding insert_score
insert_score-Descending s [] h = (tt, tt)
insert_score-Descending s (t ∷ ts) h = elim (Bool-cases (ltb_ℤ s.intercept t.intercept)) [
  | inl e ↦ rw e (
    insert_score-All (λ u. u.intercept ≤ℤ t.intercept) s ts (ground arith) h.0,
    insert_score-Descending s ts h.1,
  )
  | inr e ↦ rw e (
    (
      ground arith,
      All-map (λ u. u.intercept ≤ℤ t.intercept) (λ u. u.intercept ≤ℤ s.intercept) ts
          (λ u q. ground arith) h.0,
    ),
    h,
  )
]

-- How many scores of one ticker a list has.
abbrev pub count : String → List RegressionScore → ℕ
count k [] = 0
count k (s ∷ ss) = (if str_eq s.ticker k then 1 else 0) + count k ss

count-insert_score :
    (k : String) (s : RegressionScore) (ss : List RegressionScore)
    → count k (insert_score s ss) ≡ (if str_eq s.ticker k then 1 else 0) + count k ss
unfolding insert_score
count-insert_score k s [] = refl
count-insert_score k s (t ∷ ts) = ground (arith, count-insert_score k s ts)

-- The ranking is in falling order of the intercepts, and has every ticker as often as the scores.
pub rank-Descending :
    (ss : List RegressionScore)
    → Descending (rank ss) × ((k : String) → count k (rank ss) ≡ count k ss)
unfolding rank
rank-Descending [] = (tt, λ k. refl)
rank-Descending (s ∷ ss) =
    let (d, c) = rank-Descending ss in
    (
      insert_score-Descending s (rank ss) d,
      λ k. ground (arith, count-insert_score k s (rank ss), c k),
    )

-- A short signal fires exactly where a short leader is first, SPY is below its average, was below it
-- for five days, and did not close above it three days in a row.
pub evaluate_short_signal-fires_iff :
    (leader : RegressionScore) (rest : List RegressionScore) (spy : SpyState)
    → (evaluate_short_signal (leader ∷ rest) (some spy)).fires ≡ true
      ↔ (elem leader.ticker short_leaders ≡ true)
        × (spy.above_ma ≡ false)
        × (5 ≤ spy.days_below_streak)
        × (spy.max_above_streak_recent < 3)
unfolding evaluate_short_signal
evaluate_short_signal-fires_iff leader rest spy = ground arith

pub short_leader-other : (t : String) → elem t short_leaders ≡ true → str_eq t long_leader ≡ false
short_leader-other t h = elim (Bool-cases (str_eq "PSQ" t)) [
  | inl e ↦ subst (λ x. str_eq x long_leader ≡ false) ((eq_iff "PSQ" t).0 e) refl
  | inr e ↦ elim (Bool-cases (str_eq "QID" t)) [
    | inl k ↦ subst (λ x. str_eq x long_leader ≡ false) ((eq_iff "QID" t).0 k) refl
    | inr k ↦ absurd (ground arith)
  ]
]

-- For one ranking the strategies of both sides never take opposite risk: where the short signal
-- fires, the long signal fires too, and parks.
pub evaluate_short_signal-long_parks :
    (scores : List RegressionScore) (spy : Option SpyState)
    → (evaluate_short_signal scores spy).fires ≡ true
    → ((evaluate_long_signal scores).fires ≡ true)
      × ((evaluate_long_signal scores).direction ≡ park)
      × ((evaluate_long_signal scores).target_ticker ≡ some park_ticker)
unfolding evaluate_short_signal evaluate_long_signal
evaluate_short_signal-long_parks [] spy h = absurd (cc h)
evaluate_short_signal-long_parks (leader ∷ rest) none h = absurd (cc h)
evaluate_short_signal-long_parks (leader ∷ rest) (some spy) h =
    let other : str_eq leader.ticker long_leader ≡ false =
      short_leader-other leader.ticker (ground arith) in
    rw other (refl, refl, refl)
