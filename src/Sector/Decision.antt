-- ===== src/Sector/Decision.antt =====
-- scripts/trading/strategy_sector_rotation.py: which ticker to hold, and for which share of the
-- allocation. Scores are in millionths; a weight is a fraction.
pub mod Leader
pub mod Weights
use blackhole_network.Base.{
  ℕ, ◌+◌, ◌-◌, ◌*◌, ◌/◌, String, Bool, true, false, not, ◌&&◌, Option, none, some, List, [], ◌∷◌,
  get, leb, ltb, ◌==◌, str_eq, if◌then◌else◌,
}
use blackhole_network.Base.Int.{ℤ, pos, negsuc, scale, ltb_ℤ}
use blackhole_network.Sector.Indicators.{SectorScore}
use blackhole_network.Sector.Signal.{Scores, SectorSignal, safe_ticker}

-- SAFE_EXIT_TRIGGER and SAFE_ENTRY_TRIGGER, 0.02
abbrev pub safe_trigger : ℕ
safe_trigger = 20000

-- TARGET_VOL, 0.80
abbrev pub target_vol : ℕ
target_vol = 800000

-- -999
abbrev pub unscored : ℤ
unscored = negsuc 998999999

abbrev final_of : Option SectorScore → ℤ
final_of none = unscored
final_of (some s) = s.final_score

abbrev pub score_val : String → Scores → ℤ
score_val ticker scores = final_of (get ticker scores)

-- The holding's score times 1 + CONFIDENCE_THRESHOLD is beaten.
abbrev pub beats : ℤ → ℤ → Bool
beats best current = ltb_ℤ (scale 11 current) (scale 10 best)

-- Step 1 of `_decide_target`
abbrev pub base_target : String → ℤ → Scores → Option String → String
base_target best best_score scores none = if ltb_ℤ (pos 0) best_score then best else safe_ticker
base_target best best_score scores (some held) =
    if str_eq held safe_ticker
    then if ltb_ℤ (pos safe_trigger) best_score then best else safe_ticker
    else if beats best_score (score_val held scores)
    then best
    else if ltb_ℤ (score_val held scores) (negsuc (safe_trigger - 1))
    then safe_ticker
    else held

abbrev is_below : Option Bool → Bool
is_below (some false) = true
is_below _ = false

-- Step 2: the defense of a falling market
abbrev pub defended : SectorSignal → String → String
defended signal target =
    let uup = score_val "UUP" signal.scores in
    let own = score_val target signal.scores in
    if is_below signal.spy_trend && not (str_eq target safe_ticker)
    then if ltb_ℤ (pos 0) uup && ltb_ℤ own uup
      then "UUP"
      else if ltb_ℤ own (pos 0)
      then safe_ticker
      else target
    else target

abbrev from_best : SectorSignal → Option String → Option String → Option ℤ → String
from_best signal held (some best) (some score) =
    defended signal (base_target best score signal.scores held)
from_best signal held _ _ = safe_ticker

-- A signal has a best asset exactly where it has a best score.
unfoldable pub decide_target : SectorSignal → Option String → String
decide_target signal held = from_best signal held signal.best_asset signal.best_score

abbrev pub weight_of : Option SectorScore → ℕ × ℕ
weight_of none = (1, 1)
weight_of (some s) =
    if leb s.vol_annualized target_vol then (1, 1) else (target_vol, s.vol_annualized)

-- min(1.0, TARGET_VOL / vol), kept exact
unfoldable pub decide_weight : SectorSignal → String → ℕ × ℕ
decide_weight signal target =
    if str_eq target safe_ticker then (1, 1) else weight_of (get target signal.scores)

-- 1.0 - target_weight
abbrev pub remainder_of : ℕ × ℕ → ℕ × ℕ
remainder_of (n, d) = (d - n, d)

-- REMAINDER_FILL_THRESHOLD is a tenth.
abbrev pub fills : String → ℕ × ℕ → Bool
fills target (n, d) = not (str_eq target safe_ticker) && ltb d (10 * (d - n))

-- `int(allocation * weight / price)`
abbrev pub shares : ℕ → ℕ × ℕ → ℕ → ℕ
shares allocation (n, d) price = allocation * n / (d * price)

-- abs(qty * price / allocation - weight) > 5%, multiplied out
abbrev pub has_drifted : ℕ → ℕ × ℕ → ℕ → Bool
has_drifted allocation (n, d) value =
    let ours = value * d in
    let goal = allocation * n in ltb (5 * (allocation * d)) (100 * ((ours - goal) + (goal - ours)))
