-- ===== src/Sector/Indicators/Bounds.antt =====
-- sector_signal.py: the range of the RSI, and when a ticker has a score.
use blackhole_network.Base.{
  ℕ, zero, suc, ◌+◌, ◌-◌, ◌*◌, ◌≤◌, ◌<◌, true, false, Option, none, some, List, [], ◌∷◌, ◌≡◌, ◌↔◌,
  refl, arith, length, skip, take_first, sum, is_some, ltb, Bool-cases, inl, inr,
}
use blackhole_network.Sector.Indicators.{smooth, wilder, gains, losses, rsi_of, rsi_wilders}

-- A fraction from 0 to 100.
abbrev pub IsPercent : Option (ℕ × ℕ) → Type 0
IsPercent none = Unit
IsPercent (some (n, d)) = (0 < d) × (n ≤ 100 * d)

rsi_of-IsPercent : (gain loss : ℕ) → IsPercent (some (rsi_of gain loss))
unfolding rsi_of
rsi_of-IsPercent gain loss = ground arith

rsi_of-none : (gain : ℕ) → rsi_of gain 0 ≡ (100, 1)
unfolding rsi_of
rsi_of-none gain = refl

-- With closes that never fall there is no loss to average.
abbrev pub Rising : List ℕ → Type 0
Rising [] = Unit
Rising (x ∷ []) = Unit
Rising (x ∷ y ∷ xs) = (x ≤ y) × Rising (y ∷ xs)

abbrev Zeros : List ℕ → Type 0
Zeros [] = Unit
Zeros (x ∷ xs) = (x ≡ 0) × Zeros xs

losses-Zeros : (xs : List ℕ) → Rising xs → Zeros (losses xs)
unfolding losses
losses-Zeros [] h = tt
losses-Zeros (x ∷ []) h = tt
losses-Zeros (x ∷ y ∷ xs) h = (omega arith, losses-Zeros (y ∷ xs) h.1)

smooth-Zeros : (p total unit : ℕ) (xs : List ℕ) → total ≡ 0 → Zeros xs → smooth p total unit xs ≡ 0
unfolding smooth
smooth-Zeros p total unit [] z h = z
smooth-Zeros p total unit (x ∷ xs) z h =
    smooth-Zeros p (total * (p - 1) + x * unit) (unit * p) xs (rw (z, h.0) (omega arith)) h.1

sum-take_first : (n : ℕ) (xs : List ℕ) → Zeros xs → sum (take_first n xs) ≡ 0
sum-take_first zero xs h = refl
sum-take_first (suc n) [] h = refl
sum-take_first (suc n) (x ∷ xs) h = omega (arith, h.0, sum-take_first n xs h.1)

skip-Zeros : (n : ℕ) (xs : List ℕ) → Zeros xs → Zeros (skip n xs)
skip-Zeros zero xs h = h
skip-Zeros (suc n) [] h = tt
skip-Zeros (suc n) (x ∷ xs) h = skip-Zeros n xs h.1

wilder-Zeros : (p : ℕ) (xs : List ℕ) → Zeros xs → wilder p xs ≡ 0
unfolding wilder
wilder-Zeros p xs h = smooth-Zeros p _ p (skip p xs) (sum-take_first p xs h) (skip-Zeros p xs h)

-- The RSI exists exactly where there is a close more than the period, and it is a fraction from 0 to
-- 100, with a denominator above 0.
pub rsi_wilders-IsPercent :
    (closes : List ℕ) (period : ℕ)
    → (is_some (rsi_wilders closes period) ≡ true ↔ period < length closes)
      × IsPercent (rsi_wilders closes period)
unfolding rsi_wilders
rsi_wilders-IsPercent closes period = (
  ground arith,
  elim (Bool-cases (ltb (length closes) (period + 1))) [
    | inl e ↦ rw e tt
    | inr e ↦ rw e (rsi_of-IsPercent (wilder period (gains closes)) (wilder period (losses closes)))
  ],
)

-- The RSI is 100 where no close is below the one before it, with closes enough.
pub rsi_wilders-Rising :
    (closes : List ℕ) (period : ℕ)
    → period < length closes
    → Rising closes
    → rsi_wilders closes period ≡ some (100, 1)
unfolding rsi_wilders
rsi_wilders-Rising closes period l h =
    let enough : ltb (length closes) (period + 1) ≡ false = ground arith in
    rw (enough, wilder-Zeros period (losses closes) (losses-Zeros closes h), rsi_of-none) refl
