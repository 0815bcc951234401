-- ===== src/Prediction/Payout/Amounts.antt =====
-- prediction_settlement.py: what a settled bet pays, and its profit or loss.
use blackhole_network.Base.{
  cancel, ℕ, ◌+◌, ◌-◌, ◌*◌, ◌/◌, ◌%◌, ◌≤◌, ◌<◌, true, false, ◌≡◌, ◌≢◌, refl, arith, ◌⊎◌, inl, inr,
}
use native.Mathlib.Nat.{div-add-mod, mod-lt}
use blackhole_network.Base.Int.{pos, neg, ◌+ℤ◌, ◌≤ℤ◌}
use blackhole_network.Prediction.Types.{Side, bet_won, bet_lost, bet_voided}
use blackhole_network.Prediction.Outcome.{Outcome, voided}
use blackhole_network.Prediction.Payout.{Payout, wins, round_half_even, compute_payout}

round_cases :
    (n d : ℕ)
    → ((round_half_even n d ≡ n / d) × (2 * (n % d) ≤ d))
      ⊎ ((round_half_even n d ≡ n / d + 1) × (d ≤ 2 * (n % d)))
unfolding round_half_even
round_cases n d = ground arith

-- The nearest number: twice the error is at most the divisor, on either side.
pub round_half_even-nearest :
    (n d : ℕ)
    → 0 < d
    → (2 * (d * round_half_even n d) ≤ 2 * n + d) × (2 * n ≤ 2 * (d * round_half_even n d) + d)
round_half_even-nearest n d h =
    let whole = div-add-mod n d in
    let small = mod-lt n h in
    elim (round_cases n d) [
      | inl (e, r) ↦ rw e (omega arith, omega arith)
      | inr (e, r) ↦
          let next : d * (n / d + 1) ≡ d * (n / d) + d = grind arith in
          rw e (omega arith, omega arith)
    ]

-- Payout and profit are rounded apart, so they differ from one another by a cent at most.
rounded_apart :
    (p q s e g : ℕ)
    → 0 < e
    → e + g ≡ 10000
    → 2 * (e * p) ≤ 2 * (s * 10000) + e
    → 2 * (s * 10000) ≤ 2 * (e * p) + e
    → 2 * (e * q) ≤ 2 * (s * g) + e
    → 2 * (s * g) ≤ 2 * (e * q) + e
    → (p ≤ q + (s + 1)) × (q + s ≤ p + 1)
rounded_apart p q s e g h k p1 p2 q1 q2 =
    let whole : s * e + s * g ≡ s * 10000 = grind arith in
    let up : e * (q + (s + 1)) ≡ e * q + s * e + e = grind arith in
    let down : e * (q + s) ≡ e * q + s * e = grind arith in
    let next : e * (p + 1) ≡ e * p + e = grind arith in
    (cancel e p (q + (s + 1)) h (omega arith), cancel e (q + s) (p + 1) h (omega arith))

pos_below : (x y z : ℕ) → x ≤ y + z → pos x ≤ℤ pos y +ℤ pos z
unfolding ◌+ℤ◌
pos_below x y z h = ground arith

pos_above : (x y z : ℕ) → x + y ≤ z + 1 → pos x +ℤ pos y ≤ℤ pos (z + 1)
unfolding ◌+ℤ◌
pos_above x y z h = ground arith

abbrev winning : ℕ → ℕ → Payout
winning stake entry = record {
  status = bet_won;
  payout = round_half_even (stake * 10000) entry;
  pnl = pos (round_half_even (stake * (10000 - entry)) entry);
}

-- The money of one bet at a price from a cent to a dollar, whatever the outcome: a void refunds the
-- stake, a loss costs it, and a win pays the stake divided by the price to the nearest cent and
-- leaves a profit within one cent of the payout less the stake.
pub compute_payout-accounts :
    (side : Side) (stake entry : ℕ) (k : Outcome)
    → 0 < entry
    → entry ≤ 10000
    → let p = compute_payout side stake entry k in
      (k ≡ voided → (p.status ≡ bet_voided) × (p.payout ≡ stake) × (p.pnl ≡ pos 0))
      × (k ≢ voided
          → wins side k ≡ false
          → (p.status ≡ bet_lost) × (p.payout ≡ 0) × (p.pnl ≡ neg (pos stake)))
      × (wins side k ≡ true
          → (p.status ≡ bet_won)
            × (2 * (entry * p.payout) ≤ 2 * (stake * 10000) + entry)
            × (2 * (stake * 10000) ≤ 2 * (entry * p.payout) + entry)
            × (pos p.payout ≤ℤ p.pnl +ℤ pos (stake + 1))
            × (p.pnl +ℤ pos stake ≤ℤ pos (p.payout + 1)))
unfolding compute_payout
compute_payout-accounts side stake entry k h l = (
  λ e. ground arith,
  λ n f. ground arith,
  λ f.
      let won : compute_payout side stake entry k ≡ winning stake entry = ground arith in
      let (p1, p2) = round_half_even-nearest (stake * 10000) entry h in
      let (q1, q2) = round_half_even-nearest (stake * (10000 - entry)) entry h in
      let (a, b) =
        rounded_apart (round_half_even (stake * 10000) entry)
          (round_half_even (stake * (10000 - entry)) entry) stake entry (10000 - entry) h
          (omega arith) p1 p2 q1 q2 in
      rw won (refl, p1, p2, pos_below _ _ (stake + 1) a, pos_above _ stake _ b),
)
