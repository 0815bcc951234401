-- ===== src/Momentum/Bars/Crosses.antt =====
-- strategy_momentum.py: the crosses, and what positions of the computed size cost.
use blackhole_network.Base.{
  ℕ, ◌*◌, ◌≤◌, ◌<◌, true, false, ◌||◌, ◌≡◌, ◌⊎◌, refl, arith, leb, ◌==◌, div-le, Bool-cases, inl,
  inr,
}
use blackhole_network.Momentum.Bars.{
  Metrics, compute_position_size, is_golden_cross, is_death_cross,
}

-- The entry and the exit signal never hold on the same bars.
pub is_golden_cross-excludes : (m : Metrics) → is_golden_cross m ≡ true → is_death_cross m ≡ false
unfolding is_golden_cross is_death_cross
is_golden_cross-excludes m h = ground arith

-- Positions of the computed size, as many as the cap, cost no more than the allocation; and a book
-- at its cap gets none.
pub compute_position_size-affordable :
    (allocation max_positions open_count price : ℕ)
    → let size = compute_position_size allocation max_positions open_count price in
      (max_positions * price * size ≤ allocation) × ((size ≡ 0) ⊎ (open_count < max_positions))
unfolding compute_position_size
compute_position_size-affordable a m n p = elim (Bool-cases (leb m n || p == 0)) [
  | inl e ↦ rw e (omega arith, inl refl)
  | inr e ↦ rw e (div-le a (m * p), inr (ground arith))
]
