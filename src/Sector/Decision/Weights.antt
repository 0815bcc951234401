-- ===== src/Sector/Decision/Weights.antt =====
-- strategy_sector_rotation.py: the weight of the target, the remainder, and what they can buy.
use mathlib.Core.Path.{subst}
use native.Mathlib.Nat.{mul_comm}
use blackhole_network.Base.{
  ℕ, ◌+◌, ◌-◌, ◌*◌, ◌/◌, ◌≤◌, ◌<◌, String, Option, none, some, ◌≡◌, arith, get, str_eq, leb,
  Bool-cases, inl, inr, cancel, div-le,
}
use blackhole_network.Sector.Indicators.{SectorScore}
use blackhole_network.Sector.Signal.{SectorSignal, safe_ticker}
use blackhole_network.Sector.Decision.{target_vol, weight_of, decide_weight, remainder_of, shares}

-- A fraction from above 0 to 1.
abbrev pub IsWeight : ℕ × ℕ → Type 0
IsWeight (n, d) = (0 < n) × (n ≤ d)

weight_of-IsWeight : (s : Option SectorScore) → IsWeight (weight_of s)
weight_of-IsWeight none = (omega arith, omega arith)
weight_of-IsWeight (some s) = elim (Bool-cases (leb s.vol_annualized target_vol)) [
  | inl e ↦ rw e (omega arith, omega arith)
  | inr e ↦ rw e (omega arith, ground arith)
]

decide_weight-IsWeight :
    (signal : SectorSignal) (target : String) → IsWeight (decide_weight signal target)
unfolding decide_weight
decide_weight-IsWeight signal target = elim (Bool-cases (str_eq target safe_ticker)) [
  | inl e ↦ rw e (omega arith, omega arith)
  | inr e ↦ rw e (weight_of-IsWeight (get target signal.scores))
]

-- The shares bought for a weight cost no more than its share of the allocation.
shares-cost : (a n d p : ℕ) → shares a (n, d) p * (d * p) ≤ a * n
shares-cost a n d p = omega (arith, div-le (a * n) (d * p), mul_comm (a * n / (d * p)) (d * p))

regroup : (d q p r s : ℕ) → d * (q * p + r * s) ≡ q * (d * p) + r * (d * s)
regroup d q p r s = omega arith

distribute : (a x y : ℕ) → a * x + a * y ≡ (x + y) * a
distribute a x y = omega arith

split : (a n d : ℕ) → n ≤ d → a * n + a * (d - n) ≡ d * a
split a n d h =
    let whole : n + (d - n) ≡ d = omega arith in
    subst (λ z. a * n + a * (d - n) ≡ z * a) whole (distribute a n (d - n))

both :
    (a p s : ℕ) (weight : ℕ × ℕ)
    → IsWeight weight
    → shares a weight p * p + shares a (remainder_of weight) s * s ≤ a
both a p s (n, d) h =
    let q = shares a (n, d) p in
    let r = shares a (d - n, d) s in
    cancel d (q * p + r * s) a (omega (arith, h.0, h.1)) (
      omega
        (arith, regroup d q p r s, split a n d h.1, shares-cost a n d p, shares-cost a (d - n) d s))

-- The weight of the target is above 0 and at most 1; and the shares of the target and those of the
-- safe asset for the remainder cost no more than the allocation together, at any prices.
pub decide_weight-affordable :
    (signal : SectorSignal) (target : String) (allocation price safe_price : ℕ)
    → let weight = decide_weight signal target in
      IsWeight weight
      × (shares allocation weight price * price
            + shares allocation (remainder_of weight) safe_price * safe_price
          ≤ allocation)
decide_weight-affordable signal target allocation price safe_price =
    let w = decide_weight-IsWeight signal target in
    (w, both allocation price safe_price (decide_weight signal target) w)
