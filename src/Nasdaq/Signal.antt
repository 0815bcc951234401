-- ===== src/Nasdaq/Signal.antt =====
-- scripts/trading/nasdaq_signal.py: the 200-day overlay and the two composed signals. Opens are in
-- ten-thousandths, and a moving average is compared by its sum. Intercepts are whole numbers of a
-- unit small enough to tell them apart; the regression that gives them is not modelled.
pub mod Ranking
use blackhole_network.Base.{
  ℕ, String, Bool, true, false, not, ◌&&◌, Option, none, some, List, [], ◌∷◌, leb, ltb, elem,
  str_eq, if◌then◌else◌,
}
use blackhole_network.Base.Int.{ℤ, ltb_ℤ}

pub record RegressionScore : Type 0 where
  pub ticker : String
  pub intercept : ℤ

pub data Direction : Type 0 where
  long park short no_direction : Direction

-- LONG_LEADER, PARK_TICKER, SHORT_LEADERS
abbrev pub long_leader : String
long_leader = "QLD"

abbrev pub park_ticker : String
park_ticker = "JPST"

abbrev pub short_leaders : List String
short_leaders = "PSQ" ∷ "QID" ∷ []

abbrev pub spy_ma_period : ℕ
spy_ma_period = 200

abbrev pub below_days_required : ℕ
below_days_required = 5

abbrev pub no_break_lookback_days : ℕ
no_break_lookback_days = 20

abbrev pub no_break_streak_max : ℕ
no_break_streak_max = 3

-- scores.sort(key=lambda s: s.intercept, reverse=True), which is stable
unfoldable pub insert_score : RegressionScore → List RegressionScore → List RegressionScore
insert_score s [] = s ∷ []
insert_score s (t ∷ ts) =
    if ltb_ℤ s.intercept t.intercept then t ∷ insert_score s ts else s ∷ t ∷ ts

unfoldable pub rank : List RegressionScore → List RegressionScore
unfolding insert_score
rank [] = []
rank (s ∷ ss) = insert_score s (rank ss)

-- The state of SPY against its average.
pub record SpyState : Type 0 where
  pub above_ma : Bool
  pub days_below_streak : ℕ
  pub max_above_streak_recent : ℕ

pub record NasdaqSignal : Type 0 where
  pub fires : Bool
  pub direction : Direction
  pub target_ticker : Option String
  pub leader : Option String
  pub runner_up : Option String
  pub rankings : List RegressionScore

abbrev silent : NasdaqSignal
silent = record {
  fires = false;
  direction = no_direction;
  target_ticker = none;
  leader = none;
  runner_up = none;
  rankings = [];
}

abbrev second : List RegressionScore → Option String
second [] = none
second (s ∷ ss) = some s.ticker

unfoldable pub evaluate_long_signal : List RegressionScore → NasdaqSignal
evaluate_long_signal [] = silent
evaluate_long_signal (leader ∷ rest) =
    let is_long = str_eq leader.ticker long_leader in
    record {
      fires = true;
      direction = if is_long then long else park;
      target_ticker = some (if is_long then long_leader else park_ticker);
      leader = some leader.ticker;
      runner_up = second rest;
      rankings = leader ∷ rest;
    }

abbrev short_fires : String → SpyState → Bool
short_fires leader spy =
    elem leader short_leaders
    && (not spy.above_ma
        && (leb below_days_required spy.days_below_streak
            && ltb spy.max_above_streak_recent no_break_streak_max))

-- `spy` is missing where the bars could not be fetched.
unfoldable pub evaluate_short_signal : List RegressionScore → Option SpyState → NasdaqSignal
evaluate_short_signal [] spy = silent
evaluate_short_signal (leader ∷ rest) none = record silent {
  leader = some leader.ticker;
  runner_up = second rest;
  rankings = leader ∷ rest;
}
evaluate_short_signal (leader ∷ rest) (some spy) =
    let fires_now = short_fires leader.ticker spy in
    record {
      fires = fires_now;
      direction = if fires_now then short else no_direction;
      target_ticker = if fires_now then some leader.ticker else none;
      leader = some leader.ticker;
      runner_up = second rest;
      rankings = leader ∷ rest;
    }
