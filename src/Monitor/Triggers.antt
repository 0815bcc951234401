-- ===== src/Monitor/Triggers.antt =====
-- weather_position_monitor.py: when a position is given up.
pub mod Rules
use blackhole_network.Base.{
  ℕ, ◌+◌, ◌-◌, ◌*◌, ◌/◌, String, Bool, true, false, not, ◌&&◌, ◌||◌, Option, none, some, ltb, leb,
  ◌==◌, if◌then◌else◌,
}
use blackhole_network.Base.Int.{ℤ, pos, neg, abs, scale, ◌-ℤ◌, leb_ℤ, ltb_ℤ, neg_part}
use blackhole_network.Prediction.Types.{Side, yes_side, no_side}
use blackhole_network.Prediction.Payout.{round_half_even}
use blackhole_network.Monitor.Positions.{Position}

-- The STOP_LOSS settings.
pub record Settings : Type 0 where
  pub enabled : Bool
  pub dry_run : Bool
  pub prob_shift : ℕ
  pub dollar : ℕ
  pub forecast_shift : ℕ
  pub forecast_hard : ℕ
  pub tail_no_thresh : ℕ

pub data TriggerType : Type 0 where
  by_prob_shift by_dollar_loss by_forecast_hard : TriggerType

pub record Trigger : Type 0 where
  pub trigger_type : TriggerType
  pub prob_shift : ℤ
  pub dollar_loss : Option ℤ
  pub forecast_shift : Option ℕ

-- Settlement is at 05:00 UTC of the next day.
abbrev pub seconds_to_settlement : ℕ → Option ℕ → Option ℕ
seconds_to_settlement now none = none
seconds_to_settlement now (some day) = some ((day + 1) * 86400 + 18000 - now)

abbrev is_no : Side → Bool
is_no no_side = true
is_no yes_side = false

abbrev pub is_tail_no : Settings → Position → Bool
is_tail_no g p = elim p.entry_implied_prob [
  | none ↦ false
  | some e ↦ is_no p.side && ltb_ℤ e (pos g.tail_no_thresh)
]

abbrev min_ℕ : ℕ → ℕ → ℕ
min_ℕ a b = if leb a b then a else b

-- none is `float("inf")`.
abbrev tightened : ℕ → ℕ → Option ℕ
tightened prob s =
    if leb 7200 s && leb s 21600
    then some (min_ℕ prob 1500)
    else if leb 3600 s && ltb s 7200
    then some (min_ℕ prob 1000)
    else if ltb s 3600
    then none
    else some prob

abbrev pub timed : Bool → ℕ → Option ℕ → Option ℕ
timed tail prob none = some prob
timed tail prob (some s) = if tail && ltb 1800 s then some prob else tightened prob s

unfoldable pub effective_thresholds : Settings → ℕ → Position → Option ℕ × ℕ
effective_thresholds g now p =
    let tail = is_tail_no g p in
    (
      timed tail (if tail then 4000 else g.prob_shift) (seconds_to_settlement now p.target_day),
      if tail then 50000 else g.dollar,
    )

abbrev loss_per_contract : Side → ℕ → ℕ → ℤ
loss_per_contract yes_side price mid = pos price -ℤ pos mid
loss_per_contract no_side price mid = (pos 10000 -ℤ pos price) -ℤ (pos 10000 -ℤ pos mid)

abbrev loss_of : Side → ℕ → Option ℕ → Option ℕ → Option ℤ
loss_of side contracts (some price) (some mid) =
    if contracts == 0 then none else some (scale contracts (loss_per_contract side price mid))
loss_of side contracts _ _ = none

pub dollar_loss : Position → Option ℤ
dollar_loss p = loss_of p.side p.contracts p.avg_price p.current_yes_mid

abbrev shift_between : Option ℤ → Option ℤ → Option ℕ
shift_between (some a) (some b) = some (abs (a -ℤ b))
shift_between _ _ = none

pub forecast_shift : Position → Option ℕ
forecast_shift p = shift_between p.nws_forecast_now p.nws_forecast_entry

-- What moved against the holder.
abbrev pub shift_against : Side → ℤ → ℕ → ℤ
shift_against yes_side entry mid = entry -ℤ pos mid
shift_against no_side entry mid = pos mid -ℤ entry

-- `round(x, 2)`
abbrev round_cents : ℤ → ℤ
round_cents x =
    if neg_part x == 0
    then pos (100 * round_half_even (abs x) 100)
    else neg (pos (100 * round_half_even (abs x) 100))

abbrev rounded : Option ℤ → Option ℤ
rounded none = none
rounded (some x) = some (round_cents x)

abbrev pub reaches_ℤ : ℕ → Option ℤ → Bool
reaches_ℤ n none = false
reaches_ℤ n (some x) = leb_ℤ (pos n) x

abbrev pub reaches : ℕ → Option ℕ → Bool
reaches n none = false
reaches n (some x) = leb n x

abbrev fire : TriggerType → ℤ → Option ℤ → Option ℕ → Option Trigger
fire kind shift loss forecast = some (record {
  trigger_type = kind;
  prob_shift = shift;
  dollar_loss = loss;
  forecast_shift = forecast;
})

abbrev pub tested : Settings → Position → ℕ → ℕ → ℤ → Option Trigger
unfolding dollar_loss forecast_shift
tested g p prob dollar shift =
    if leb_ℤ (pos prob) shift
    then fire by_prob_shift shift (dollar_loss p) (forecast_shift p)
    else if reaches_ℤ dollar (dollar_loss p)
    then fire by_dollar_loss shift (rounded (dollar_loss p)) (forecast_shift p)
    else if reaches g.forecast_hard (forecast_shift p)
    then fire by_forecast_hard shift (dollar_loss p) (forecast_shift p)
    else none

abbrev pub evaluated : Settings → Position → Option ℤ → Option ℕ → Option ℕ → ℕ → Option Trigger
unfolding tested
evaluated g p (some entry) (some prob) (some mid) dollar =
    tested g p prob dollar (shift_against p.side entry mid)
evaluated g p _ _ _ dollar = none

pub evaluate_triggers : Settings → ℕ → Position → Option Trigger
unfolding evaluated effective_thresholds
evaluate_triggers g now p =
    let (prob, dollar) = effective_thresholds g now p in
    evaluated g p p.entry_implied_prob prob p.current_yes_mid dollar
