-- ===== src/Prediction/Decision.antt =====
-- prediction_signal.py: the side, the half-Kelly stake and the verdict on one market price.
pub mod Bounds
use blackhole_network.Base.{
  ℕ, ◌+◌, ◌-◌, ◌*◌, ◌/◌, Bool, true, false, ◌&&◌, ◌||◌, Option, none, some, is_some, not, ltb, leb,
  ◌==◌, if◌then◌else◌,
}
use blackhole_network.Prediction.Types.{Side, yes_side, no_side}

-- n / d
pub record Ratio : Type 0 where
  pub n : ℕ
  pub d : ℕ

-- What evaluate_decision reads of a ModelEstimate: the probability of YES and the confidence.
pub record Estimate : Type 0 where
  pub probability : Option Ratio
  pub confidence : Option Ratio

pub data Rejection : Type 0 where
  no_forecast small_edge no_confidence low_confidence : Rejection

-- The edge is `edge` / (100 * `scale`); prices and money are in cents.
pub record BetDecision : Type 0 where
  pub is_opportunity : Bool
  pub side : Option Side
  pub edge : ℕ
  pub scale : ℕ
  pub stake : ℕ
  pub contracts_to_buy : ℕ
  pub limit_price_cents : ℕ
  pub rejection : Option Rejection

-- (p - price) / (1 - price), where p is n / d
pub kelly_fraction_to_bet : Ratio → ℕ → Ratio
kelly_fraction_to_bet p price =
    if leb 100 price || price == 0
    then record { n = 0; d = 1 }
    else if leb (100 * p.n) (price * p.d)
    then record { n = 0; d = 1 }
    else record { n = 100 * p.n - price * p.d; d = p.d * (100 - price) }

-- Half of the fraction, at most a fifth of the allocation, rounded down to the cent.
pub stake_dollars_from_kelly : Ratio → ℕ → ℕ → ℕ
unfolding kelly_fraction_to_bet
stake_dollars_from_kelly p price allocation =
    let raw = kelly_fraction_to_bet p price in
    if leb (5 * raw.n) (2 * raw.d) then allocation * raw.n / (2 * raw.d) else allocation / 5

-- A side with the model's probability and the price of it.
pub record Stand : Type 0 where
  pub side : Side
  pub model : Ratio
  pub price : ℕ

-- `edge_yes >= edge_no`, and the two are opposite.
pub choose_side : Ratio → ℕ → Stand
choose_side p price =
    if leb (price * p.d) (100 * p.n)
    then record { side = yes_side; model = p; price = price }
    else record { side = no_side; model = record { n = p.d - p.n; d = p.d }; price = 100 - price }

abbrev pub edge_of : Stand → ℕ
edge_of s = 100 * s.model.n - s.price * s.model.d

abbrev too_unsure : Option Ratio → Option Rejection
too_unsure none = some no_confidence
too_unsure (some c) = if ltb (100 * c.n) (65 * c.d) then some low_confidence else none

pub reject : Stand → Option Ratio → Option Rejection
reject s confidence =
    if ltb (edge_of s) (8 * s.model.d) then some small_edge else too_unsure confidence

abbrev pub decide : Stand → Option Ratio → ℕ → BetDecision
unfolding reject stake_dollars_from_kelly
decide s confidence allocation =
    let stake = stake_dollars_from_kelly s.model s.price allocation in
    let contracts = if s.price == 0 then 0 else stake / s.price in
    record {
      is_opportunity = not (is_some (reject s confidence)) && leb 1 contracts && ltb 0 stake;
      side = some s.side;
      edge = edge_of s;
      scale = s.model.d;
      stake = stake;
      contracts_to_buy = contracts;
      limit_price_cents = s.price;
      rejection = reject s confidence;
    }

abbrev pub decided : Estimate → ℕ → ℕ → Option Ratio → BetDecision
unfolding choose_side decide
decided est price allocation none = record {
  is_opportunity = false;
  side = none;
  edge = 0;
  scale = 1;
  stake = 0;
  contracts_to_buy = 0;
  limit_price_cents = 0;
  rejection = some no_forecast;
}
decided est price allocation (some p) = decide (choose_side p price) est.confidence allocation

unfoldable pub evaluate_decision : Estimate → ℕ → ℕ → BetDecision
unfolding decided
evaluate_decision est price allocation = decided est price allocation est.probability
