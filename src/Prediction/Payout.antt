-- ===== src/Prediction/Payout.antt =====
-- prediction_settlement.py: what a bet pays.
pub mod Amounts
use blackhole_network.Base.{
  ℕ, ◌+◌, ◌-◌, ◌*◌, ◌/◌, ◌%◌, ◌^◌, String, Bool, true, false, not, ◌&&◌, ◌||◌, Option, none, some,
  List, [], ◌∷◌, ◌++◌, map, length, ltb, leb, ◌==◌, str_eq, if◌then◌else◌, codes, lower, same_codes,
  is_some,
}
use blackhole_network.Base.Int.{ℤ, pos, neg}
use blackhole_network.Prediction.Outcome.{Outcome, settled_yes, settled_no, voided}
use blackhole_network.Prediction.Types.{
  Side, yes_side, no_side, BetStatus, bet_open, bet_won, bet_lost, bet_voided, Bet, Contract,
  Decimal, Variable, tmax_f, tmin_f, precip_in, Op, above, at_least, below, at_most, between,
  Observation, Metadata,
}
use blackhole_network.Prediction.Ticker.{parse_kalshi_weather_ticker}

-- `n / d` to the nearest, ties to even, as `quantize` rounds.
pub round_half_even : ℕ → ℕ → ℕ
round_half_even n d =
    let q = n / d in
    let r = n % d in
    if ltb (2 * r) d then q else if ltb d (2 * r) then q + 1 else if q % 2 == 0 then q else q + 1

abbrev pub wins : Side → Outcome → Bool
wins yes_side settled_yes = true
wins no_side settled_no = true
wins _ _ = false

pub record Payout : Type 0 where
  pub status : BetStatus
  pub payout : ℕ
  pub pnl : ℤ

-- payout - stake, rounded with its sign
abbrev rounded_pnl : ℕ → ℕ → ℤ
rounded_pnl stake entry =
    if leb entry 10000
    then pos (round_half_even (stake * (10000 - entry)) entry)
    else neg (pos (round_half_even (stake * (entry - 10000)) entry))

unfoldable pub compute_payout : Side → ℕ → ℕ → Outcome → Payout
unfolding round_half_even
compute_payout side stake entry voided = record { status = bet_voided; payout = stake; pnl = pos 0 }
compute_payout side stake entry outcome =
    if entry == 0
    then record { status = bet_voided; payout = stake; pnl = pos 0 }
    else if wins side outcome
    then record {
      status = bet_won;
      payout = round_half_even (stake * 10000) entry;
      pnl = rounded_pnl stake entry;
    }
    else record { status = bet_lost; payout = 0; pnl = neg (pos stake) }
