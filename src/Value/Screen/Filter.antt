-- ===== src/Value/Screen/Filter.antt =====
-- strategy_value.py: the filter on the figures of a company.
use native.Mathlib.Nat.{pow-suc}
use blackhole_network.Base.{ℕ, zero, suc, ◌^◌, ◌<◌, Bool, true, false, ◌&&◌, ◌≡◌, arith}
use blackhole_network.Base.Int.{ℤ, pos, negsuc, scale, ltb_ℤ, ◌<ℤ◌, ◌≤ℤ◌, scale_parts}
use blackhole_network.Value.Screen.{Figure, lt, Filters, ratios_pass}

pow-positive : (e : ℕ) → 0 < 10 ^ e
pow-positive zero = omega arith
pow-positive (suc e) = rw (pow-suc 10 e) (omega (arith, pow-positive e))

below : (k l n m : ℕ) → 0 < k → ltb_ℤ (scale k (negsuc n)) (scale l (pos m)) ≡ true
below k l n m h = ground (arith, scale_parts k (negsuc n), scale_parts l (pos m))

lt_negative : (a b : Figure) → a.m <ℤ pos 0 → pos 0 ≤ℤ b.m → lt a b ≡ true
lt_negative a b h k = of_signs a.m b.m h k
  where
    of_signs :
        (x y : ℤ) → x <ℤ pos 0 → pos 0 ≤ℤ y → ltb_ℤ (scale (10 ^ b.e) x) (scale (10 ^ a.e) y) ≡ true
    of_signs (pos n) y h k = absurd (omega arith)
    of_signs (negsuc n) (negsuc m) h k = absurd (omega arith)
    of_signs (negsuc n) (pos m) h k = below (10 ^ b.e) (10 ^ a.e) n m (pow-positive b.e)

-- A loss never fails the screen: a price-earnings ratio below 0 passes wherever the other figures
-- pass with some ratio, for any limit that is not negative.
pub ratios_pass-loss :
    (f : Filters) (pe loss pb roe : Figure) (de : Figure × Figure)
    → ratios_pass f pe pb roe de ≡ true
    → loss.m <ℤ pos 0
    → pos 0 ≤ℤ f.pe_max.m
    → ratios_pass f loss pb roe de ≡ true
unfolding ratios_pass
ratios_pass-loss f pe loss pb roe de h l k =
    let cheap = lt_negative loss f.pe_max l k in rw cheap (and_right (lt pe f.pe_max) _ h)
  where
    and_right : (a b : Bool) → (a && b) ≡ true → b ≡ true
    and_right true b e = e
    and_right false b e = absurd (ground arith)
