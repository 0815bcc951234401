-- ===== src/Sector/Indicators.antt =====
-- scripts/trading/sector_signal.py: the indicators and the score of one ticker, on closes in
-- ten-thousandths, the oldest first. A quotient that the source compares is kept exact; a score and
-- a deviation, which are floats there, are in millionths and rounded down. `sqrt` is math.sqrt.
pub mod Bounds
use blackhole_network.Base.{
  ℕ, zero, suc, ◌+◌, ◌-◌, ◌*◌, ◌/◌, ◌^◌, Bool, true, false, not, ◌&&◌, ◌||◌, Option, none, some,
  List, [], ◌∷◌, map, length, leb, ltb, skip, take_first, last_of, sum, last_value, ◌==◌,
  if◌then◌else◌,
}
use blackhole_network.Base.Int.{ℤ, pos, negsuc, ◌+ℤ◌, ◌-ℤ◌, scale, abs}
use blackhole_network.Core.Types.{Ratio}

abbrev pub roc_fast_period : ℕ
roc_fast_period = 9

abbrev pub roc_med_period : ℕ
roc_med_period = 21

abbrev pub roc_slow_period : ℕ
roc_slow_period = 63

abbrev pub vol_period : ℕ
vol_period = 21

abbrev pub rsi_period : ℕ
rsi_period = 14

abbrev pub sma_period : ℕ
sma_period = 50

-- A dollar of the deviations, and 1.0
abbrev million : ℕ
million = 1000000

abbrev pub first {ℓ} : {A : Type ℓ} → List A → Option A
first [] = none
first (x ∷ xs) = some x

abbrev roc_from : ℕ → Option ℕ → Option Ratio
roc_from now none = none
roc_from now (some past) =
    if past == 0 then none else some (record { num = pos now -ℤ pos past; den = past })

-- (now - past) / past
unfoldable pub rocp : List ℕ → ℕ → Option Ratio
rocp closes period =
    if ltb (length closes) (period + 1)
    then none
    else roc_from (last_value closes) (first (last_of (period + 1) closes))

-- The mean is sum / period.
unfoldable pub sma : List ℕ → ℕ → Option (ℕ × ℕ)
sma closes period =
    if ltb (length closes) period then none else some (sum (last_of period closes), period)

abbrev pub above : ℕ → ℕ × ℕ → Bool
above price (total, n) = ltb total (price * n)

-- The gains and the losses from each close to the next.
pub gains : List ℕ → List ℕ
gains [] = []
gains (x ∷ []) = []
gains (x ∷ y ∷ xs) = (y - x) ∷ gains (y ∷ xs)

pub losses : List ℕ → List ℕ
losses [] = []
losses (x ∷ []) = []
losses (x ∷ y ∷ xs) = (x - y) ∷ losses (y ∷ xs)

-- avg = (avg * (period - 1) + x) / period: the average is total / unit, and unit grows by period.
pub smooth : ℕ → ℕ → ℕ → List ℕ → ℕ
smooth period total unit [] = total
smooth period total unit (x ∷ xs) =
    smooth period (total * (period - 1) + x * unit) (unit * period) xs

-- The average that Wilder's smoothing leaves, times the period once for each change.
pub wilder : ℕ → List ℕ → ℕ
unfolding smooth
wilder period xs = smooth period (sum (take_first period xs)) period (skip period xs)

-- 100 - 100 / (1 + gain / loss), or 100 where no loss is left
pub rsi_of : ℕ → ℕ → ℕ × ℕ
rsi_of gain loss = if loss == 0 then (100, 1) else (100 * gain, gain + loss)

unfoldable pub rsi_wilders : List ℕ → ℕ → Option (ℕ × ℕ)
unfolding rsi_of wilder gains losses
rsi_wilders closes period =
    if ltb (length closes) (period + 1)
    then none
    else some (rsi_of (wilder period (gains closes)) (wilder period (losses closes)))

-- RSI_OVERBOUGHT, RSI_OVERSOLD
abbrev is_extreme : ℕ × ℕ → Bool
is_extreme (num, den) = ltb (85 * den) num || ltb num (30 * den)

abbrev distance : ℕ → ℕ → ℕ
distance a b = (a - b) + (b - a)

abbrev square : ℕ → ℕ
square a = a * a

-- Rounded down, also below 0.
abbrev div_ℤ : ℤ → ℕ → ℤ
div_ℤ (pos n) d = pos (n / d)
div_ℤ (negsuc n) d = negsuc (n / d)

abbrev total_ℤ : List ℤ → ℤ
total_ℤ [] = pos 0
total_ℤ (x ∷ xs) = x +ℤ total_ℤ xs

-- The percent changes, in millionths; a close that is not positive is passed over.
pub returns : List ℕ → List ℤ
returns [] = []
returns (x ∷ []) = []
returns (x ∷ y ∷ xs) =
    let rest = returns (y ∷ xs) in
    if x == 0 then rest else div_ℤ (scale million (pos y -ℤ pos x)) x ∷ rest

-- 5, 3 and 2 tenths of the three rates of change
abbrev weighted : Ratio → Ratio → Ratio → Ratio
weighted f m s = record {
  num =
      scale (5 * (m.den * s.den)) f.num
      +ℤ scale (3 * (f.den * s.den)) m.num
      +ℤ scale (2 * (f.den * m.den)) s.num;
  den = 10 * (f.den * (m.den * s.den));
}

pub record SectorScore : Type 0 where
  pub price : ℕ
  pub vol_21 : ℕ
  pub vol_annualized : ℕ
  pub final_score : ℤ
  pub n_bars : ℕ

module _ (sqrt : ℕ → ℕ) where
  -- The variance of n closes with the sum s is Σ (n * c - s)² / n³.
  unfoldable pub std_dev : List ℕ → ℕ → Option ℕ
  std_dev closes period =
      let window = last_of period closes in
      let squares = sum (map (λ c. square (distance (period * c) (sum window))) window) in
      if ltb (length closes) period then none else some (sqrt (squares * 10000 / period ^ 3))

  -- The sample variance of n returns with the sum s is Σ (n * r - s)² / (n² * (n - 1)).
  unfoldable pub std_dev_returns : List ℕ → ℕ → Option ℕ
  unfolding returns
  std_dev_returns closes period =
      let rets = returns (last_of (period + 1) closes) in
      let n = length rets in
      let squares = sum (map (λ r. square (abs (scale n r -ℤ total_ℤ rets))) rets) in
      if ltb (length closes) (period + 1) || ltb n 2
      then none
      else some (sqrt (squares / (n ^ 2 * (n - 1))))

  abbrev or_zero : Option ℕ → ℕ
  or_zero none = 0
  or_zero (some v) = v

  abbrev scored :
      List ℕ
      → Option Ratio
      → Option Ratio
      → Option Ratio
      → Option ℕ
      → Option (ℕ × ℕ)
      → Option (ℕ × ℕ)
      → Option SectorScore
  scored closes (some fast) (some med) (some slow) (some vol) (some rsi) (some mean) =
      let vol_used = if vol == 0 then million else vol in
      let mom = weighted fast med slow in
      let halves = if above (last_value closes) mean then 2 else 1 in
      let tenths = if is_extreme rsi then 9 else 10 in
      some (record {
        price = last_value closes;
        vol_21 = vol_used;
        vol_annualized =
            or_zero (std_dev_returns closes vol_period) * sqrt (252 * million ^ 2) / million;
        final_score =
            div_ℤ (scale (million ^ 2 * (halves * tenths)) mom.num) (mom.den * (vol_used * 20));
        n_bars = length closes;
      })
  scored closes _ _ _ _ _ _ = none

  unfoldable pub score_ticker : List ℕ → Option SectorScore
  score_ticker closes =
      scored closes (rocp closes roc_fast_period) (rocp closes roc_med_period)
        (rocp closes roc_slow_period) (std_dev closes vol_period) (rsi_wilders closes rsi_period)
        (sma closes sma_period)
