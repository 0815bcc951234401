-- ===== src/Prediction/Types.antt =====
-- The rows of weather_bets, prediction_contracts and weather_observations. Stakes and payouts are in
-- cents, entry prices in ten-thousandths; a day is a number, ordered as the dates are.
use blackhole_network.Base.{ℕ, String, Bool, Option}
use blackhole_network.Base.Int.{ℤ}

-- 'yes' and 'no'
pub data Side : Type 0 where
  yes_side no_side : Side

pub data BetStatus : Type 0 where
  bet_open bet_won bet_lost bet_voided : BetStatus

pub record Bet : Type 0 where
  pub id : ℕ
  pub contract_id : ℕ
  pub on_kalshi : Bool
  pub side : Side
  pub stake : ℕ
  pub entry_price : ℕ
  pub placed_day : ℕ
  pub status : BetStatus
  pub payout : Option ℕ
  pub pnl : Option ℤ
  pub exchange_order_id : Option String

-- `resolved` is none while resolved_at is null, else the outcome, which is null for a void.
pub record Contract : Type 0 where
  pub id : ℕ
  pub ticker : String
  pub resolution_day : Option ℕ
  pub resolved : Option (Option Bool)
  pub is_active : Bool

-- A decimal numeral: `digits` / 10^`places`.
pub record Decimal : Type 0 where
  pub digits : ℕ
  pub places : ℕ

pub data Variable : Type 0 where
  tmax_f tmin_f precip_in : Variable

-- threshold_op
pub data Op : Type 0 where
  above at_least below at_most between : Op

-- A row of weather_observations with the source 'nws_cli'.
pub record Observation : Type 0 where
  pub station : String
  pub day : ℕ
  pub variable : Variable
  pub value : Decimal

-- ContractMetadata: what a ticker says of its contract.
pub record Metadata : Type 0 where
  pub ticker : String
  pub series : String
  pub station : String
  pub variable : Variable
  pub day : ℕ
  pub threshold : Decimal
  pub op : Op
  pub threshold_high : Option Decimal
