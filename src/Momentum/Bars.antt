-- ===== src/Momentum/Bars.antt =====
-- scripts/trading/strategy_momentum.py: the averages, the crosses and the size of a position. Closes are
-- in ten-thousandths, the oldest first; a mean is a sum with the number of its terms.
pub mod Crosses
use blackhole_network.Base.{
  ℕ, zero, suc, ◌+◌, ◌-◌, ◌*◌, ◌/◌, String, Bool, true, false, ◌&&◌, ◌||◌, Option, none, some, List,
  [], ◌∷◌, map, length, skip, take_first, last_of, sum, last_value, max_of, leb, ltb, ◌==◌,
  if◌then◌else◌,
}

-- `date` counts days.
pub record Bar : Type 0 where
  pub close : ℕ
  pub volume : ℕ
  pub date : ℕ

-- rules.json merged over DEFAULTS; the last two are fractions. Periods are positive.
pub record Rules : Type 0 where
  pub universe : List String
  pub fast_period : ℕ
  pub slow_period : ℕ
  pub volume_avg_period : ℕ
  pub max_positions : ℕ
  pub volume_confirm_multiplier : ℕ × ℕ
  pub trailing_stop_pct : ℕ × ℕ

pub record Metrics : Type 0 where
  pub sma_fast_today : ℕ × ℕ
  pub sma_fast_prev : ℕ × ℕ
  pub sma_slow_today : ℕ × ℕ
  pub sma_slow_prev : ℕ × ℕ
  pub vol_today : ℕ
  pub vol_avg : ℕ × ℕ
  pub today_close : ℕ

-- The mean of the last `period` closes, `offset` bars back
unfoldable pub sma : List ℕ → ℕ → ℕ → Option (ℕ × ℕ)
sma closes period offset =
    let end = length closes - offset in
    if ltb (length closes) (offset + period)
    then none
    else some (sum (skip (end - period) (take_first end closes)), period)

-- a ≤ b and a < b on means, multiplied out
abbrev pub mean_le : ℕ × ℕ → ℕ × ℕ → Bool
mean_le (a, p) (b, q) = leb (a * q) (b * p)

abbrev pub mean_lt : ℕ × ℕ → ℕ × ℕ → Bool
mean_lt (a, p) (b, q) = ltb (a * q) (b * p)

abbrev metrics_from :
    List Bar
    → ℕ
    → Option (ℕ × ℕ)
    → Option (ℕ × ℕ)
    → Option (ℕ × ℕ)
    → Option (ℕ × ℕ)
    → Option Metrics
metrics_from bars n (some fast) (some fast_prev) (some slow) (some slow_prev) =
    let volumes = map (λ b. b.volume) bars in
    let before = take_first n (last_of (n + 1) volumes) in
    if ltb (length bars) (n + 1)
    then none
    else some (record {
      sma_fast_today = fast;
      sma_fast_prev = fast_prev;
      sma_slow_today = slow;
      sma_slow_prev = slow_prev;
      vol_today = last_value volumes;
      vol_avg = (sum before, n);
      today_close = last_value (map (λ b. b.close) bars);
    })
metrics_from bars n _ _ _ _ = none

unfoldable pub compute_metrics : List Bar → Rules → Option Metrics
compute_metrics bars rules =
    let closes = map (λ b. b.close) bars in
    metrics_from bars rules.volume_avg_period (sma closes rules.fast_period 0)
      (sma closes rules.fast_period 1) (sma closes rules.slow_period 0)
      (sma closes rules.slow_period 1)

unfoldable pub is_golden_cross : Metrics → Bool
is_golden_cross m =
    mean_le m.sma_fast_prev m.sma_slow_prev && mean_lt m.sma_slow_today m.sma_fast_today

unfoldable pub is_death_cross : Metrics → Bool
is_death_cross m =
    mean_le m.sma_slow_prev m.sma_fast_prev && mean_lt m.sma_fast_today m.sma_slow_today

-- vol_today >= vol_avg * multiplier
unfoldable pub has_volume_confirm : Metrics → ℕ × ℕ → Bool
has_volume_confirm m (num, den) = leb (m.vol_avg.0 * num) (m.vol_today * (m.vol_avg.1 * den))

unfoldable pub compute_position_size : ℕ → ℕ → ℕ → ℕ → ℕ
compute_position_size allocation max_positions open_count price =
    if leb max_positions open_count || price == 0 then 0 else allocation / (max_positions * price)

-- The highest close since the day of the entry, if there is a bar since then.
pub highest_since : ℕ → List Bar → Option ℕ
highest_since entry [] = none
highest_since entry (b ∷ bs) =
    let rest = highest_since entry bs in
    if leb entry b.date
    then some (elim rest [ none ↦ b.close | some h ↦ max_of b.close h ])
    else rest

-- today_close <= peak * (1 - pct)
abbrev pub stop_reached : ℕ × ℕ → ℕ → ℕ → Bool
stop_reached (num, den) peak close = leb (close * den) (peak * (den - num))
