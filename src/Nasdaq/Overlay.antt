-- ===== src/Nasdaq/Overlay.antt =====
-- scripts/trading/nasdaq_signal.py, spy_200ma_state: SPY against its 200-day average, from the daily opens,
-- the oldest first. An open is compared with the average by 200 times the open and the sum.
use blackhole_network.Base.{
  ℕ, ◌+◌, ◌*◌, ◌≤◌, Bool, true, false, ◌&&◌, Option, none, some, List, [], ◌∷◌, length, ltb, leb,
  ◌≡◌, refl, arith, if◌then◌else◌,
}
use Prim.Native.Nat.{zero, suc}
use blackhole_network.Nasdaq.Signal.{SpyState, spy_ma_period, no_break_lookback_days}

-- The sum of the first n.
abbrev sum_of : ℕ → List ℕ → ℕ
sum_of n [] = 0
sum_of zero (x ∷ xs) = 0
sum_of (suc n) (x ∷ xs) = x + sum_of n xs

-- A day of the newest first, with a full window that ends on it and a day before the window.
abbrev has_window : List ℕ → Bool
has_window days = leb (spy_ma_period + 1) (length days)

abbrev is_below : List ℕ → Bool
is_below [] = false
is_below (x ∷ xs) = ltb (spy_ma_period * x) (sum_of spy_ma_period (x ∷ xs))

abbrev is_above : List ℕ → Bool
is_above [] = false
is_above (x ∷ xs) = ltb (sum_of spy_ma_period (x ∷ xs)) (spy_ma_period * x)

-- The days below in a row that end today.
pub below_streak : List ℕ → ℕ
below_streak [] = 0
below_streak (x ∷ xs) =
    let rest = below_streak xs in if has_window (x ∷ xs) && is_below (x ∷ xs) then rest + 1 else 0

abbrev larger : ℕ → ℕ → ℕ
larger a b = if ltb a b then b else a

-- Over the last n days: the run above that ends today, and the longest.
pub above_runs : ℕ → List ℕ → ℕ × ℕ
above_runs n [] = (0, 0)
above_runs zero (x ∷ xs) = (0, 0)
above_runs (suc n) (x ∷ xs) =
    let (run, best) = above_runs n xs in
    if has_window (x ∷ xs)
    then (if is_above (x ∷ xs) then (run + 1, larger best (run + 1)) else (0, best))
    else (0, 0)

abbrev newest_first : List ℕ → List ℕ → List ℕ
newest_first acc [] = acc
newest_first acc (x ∷ xs) = newest_first (x ∷ acc) xs

abbrev pub state_from : List ℕ → SpyState
unfolding below_streak above_runs
state_from days = record {
  above_ma = is_above days;
  days_below_streak = below_streak days;
  max_above_streak_recent = (above_runs no_break_lookback_days days).1;
}

pub spy_200ma_state : Option (List ℕ) → Option SpyState
unfolding state_from
spy_200ma_state none = none
spy_200ma_state (some opens) =
    if has_window opens then some (state_from (newest_first [] opens)) else none

-- No more days than were looked at.
above_runs-bounded :
    (n : ℕ) (days : List ℕ) → ((above_runs n days).0 ≤ n) × ((above_runs n days).1 ≤ n)
unfolding above_runs
above_runs-bounded n [] = (omega arith, omega arith)
above_runs-bounded zero (x ∷ xs) = (omega arith, omega arith)
above_runs-bounded (suc n) (x ∷ xs) =
    let (run, best) = above_runs-bounded n xs in
    longer (has_window (x ∷ xs)) (is_above (x ∷ xs)) (above_runs n xs).0 (above_runs n xs).1 run
      best
  where
    longer :
        (a b : Bool) (run best : ℕ)
        → run ≤ n
        → best ≤ n
        → let p : ℕ × ℕ =
            if a then (if b then (run + 1, larger best (run + 1)) else (0, best)) else (0, 0) in
          (p.0 ≤ suc n) × (p.1 ≤ suc n)
    longer false b run best h k = (omega arith, omega arith)
    longer true false run best h k = (omega arith, omega arith)
    longer true true run best h k = (omega arith, ground arith)

one_side : (a b : ℕ) → ltb a b ≡ true → ltb b a ≡ false
one_side a b h = ground arith

above-not_below : (days : List ℕ) → is_above days ≡ true → is_below days ≡ false
above-not_below [] h = refl
above-not_below (x ∷ xs) h = one_side (sum_of spy_ma_period (x ∷ xs)) (spy_ma_period * x) h

below_streak-above : (days : List ℕ) → is_above days ≡ true → below_streak days ≡ 0
unfolding below_streak
below_streak-above [] h = refl
below_streak-above (x ∷ xs) h =
    let off : (has_window (x ∷ xs) && is_below (x ∷ xs)) ≡ false =
      not_and (has_window (x ∷ xs)) (is_below (x ∷ xs)) (above-not_below (x ∷ xs) h) in
    rw off refl
  where
    not_and : (a b : Bool) → b ≡ false → (a && b) ≡ false
    not_and true b e = e
    not_and false b e = refl

-- On a day above the average no streak below it is running, and the longest recent streak above it is
-- one of at most twenty days.
pub state_from-consistent :
    (days : List ℕ)
    → ((state_from days).above_ma ≡ true → (state_from days).days_below_streak ≡ 0)
      × ((state_from days).max_above_streak_recent ≤ 20)
unfolding state_from
state_from-consistent days = (below_streak-above days, (above_runs-bounded 20 days).1)
