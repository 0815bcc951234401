-- ===== src/Core/Orders/Sizing.antt =====
-- trading_core.py: `equal_weight_size` rounds to the nearest number of shares.
use native.Mathlib.Nat.{mul-div-le, lt-mul-div-succ}
use blackhole_network.Base.{ℕ, ◌+◌, ◌*◌, ◌/◌, ◌≤◌, ◌<◌, ◌≡◌, arith}
use blackhole_network.Core.Orders.{equal_weight_size}

equal_weight_size-quotient :
    (allocation max_positions count price : ℕ)
    → count < max_positions
    → 0 < price
    → equal_weight_size allocation max_positions count price
      ≡ (2 * allocation + max_positions * price) / (2 * (max_positions * price))
unfolding equal_weight_size
equal_weight_size-quotient allocation max_positions count price h k = ground arith

-- A full book buys nothing. Otherwise the cost of the shares is within half a share's price of the
-- equal part of the allocation, both multiplied by the number of positions.
pub equal_weight_size-nearest :
    (allocation max_positions count price : ℕ)
    → 0 < price
    → let shares = equal_weight_size allocation max_positions count price in
      (max_positions ≤ count → shares ≡ 0)
      × (count < max_positions
          → (2 * (max_positions * price) * shares ≤ 2 * allocation + max_positions * price)
            × (2 * allocation < 2 * (max_positions * price) * shares + max_positions * price))
unfolding equal_weight_size
equal_weight_size-nearest allocation max_positions count price k = (
  λ h. ground arith,
  λ h.
      let unit = 2 * (max_positions * price) in
      let total = 2 * allocation + max_positions * price in
      let positive : 0 < unit = let q : 0 < max_positions * price = grind arith in omega arith in
      rw (equal_weight_size-quotient allocation max_positions count price h k)
        (mul-div-le total unit, let below = lt-mul-div-succ total positive in grind arith),
)
