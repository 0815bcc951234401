-- ===== src/Prediction/Settlement.antt =====
-- prediction_settlement.py: how an open bet is settled.
pub mod Due
pub mod Steps
pub mod Listed
pub mod Progress
use blackhole_network.Base.{
  ℕ, ◌+◌, ◌-◌, ◌*◌, ◌/◌, ◌%◌, ◌^◌, String, Bool, true, false, not, ◌&&◌, ◌||◌, Option, none, some,
  List, [], ◌∷◌, ◌++◌, map, length, ltb, leb, ◌==◌, str_eq, if◌then◌else◌, codes, lower, same_codes,
  is_some,
}
use blackhole_network.Base.Int.{ℤ, pos, neg}
use blackhole_network.Prediction.Outcome.{
  Market, Outcome, Reply, Report, api_error, derive_nws_outcome, fetch_kalshi_market_outcome,
  less_decimal, market_body, market_outcome, other_error, settled_no, settled_yes, voided,
}
use blackhole_network.Prediction.Payout.{Payout, compute_payout, round_half_even, wins}
use blackhole_network.Prediction.Types.{
  Side, yes_side, no_side, BetStatus, bet_open, bet_won, bet_lost, bet_voided, Bet, Contract,
  Decimal, Variable, tmax_f, tmin_f, precip_in, Op, above, at_least, below, at_most, between,
  Observation, Metadata,
}
use blackhole_network.Prediction.Ticker.{parse_kalshi_weather_ticker}

pub data Notice : Type 0 where
  settle_notice discrepancy_notice : ℕ → Notice

pub record Desk : Type 0 where
  pub bets : List Bet
  pub contracts : List Contract
  pub observations : List Observation
  pub notices : List Notice

-- The outside: the exchange, the download of the NWS report, the day, and
-- whether the update of a bet commits; the other statements do.
pub record Outside : Type 0 where
  pub get_market : String → Reply
  pub fetch_nws_cli : String → ℕ → Option Report
  pub today : ℕ
  pub commits : ℕ → Bool

pub record SettlementResult : Type 0 where
  pub bet_id : ℕ
  pub kalshi_outcome : Option Outcome
  pub nws_outcome : Option Outcome
  -- none is 'pending'
  pub final : Option Payout
  pub discrepancy : Bool

abbrev same_variable : Variable → Variable → Bool
same_variable tmax_f tmax_f = true
same_variable tmin_f tmin_f = true
same_variable precip_in precip_in = true
same_variable _ _ = false

abbrev has_observation : String → ℕ → Variable → List Observation → Bool
has_observation station day v [] = false
has_observation station day v (o ∷ os) =
    (str_eq o.station station && (o.day == day && same_variable o.variable v))
    || has_observation station day v os

-- One sample: `ON CONFLICT … DO NOTHING`
abbrev insert_sample : Report → Variable → Option Decimal → List Observation → List Observation
insert_sample r v none rows = rows
insert_sample r v (some x) rows =
    if has_observation r.station r.day v rows
    then rows
    else rows ++ record { station = r.station; day = r.day; variable = v; value = x } ∷ []

pub insert_nws_cli_observations : Report → List Observation → List Observation
insert_nws_cli_observations r rows =
    insert_sample r precip_in r.precip
      (insert_sample r tmin_f r.tmin (insert_sample r tmax_f r.tmax rows))

abbrev paid : Payout → Bet → Bet
paid p b = record b { status = p.status; payout = some p.payout; pnl = some p.pnl }

-- `UPDATE weather_bets … WHERE id = …`; a failure is only logged.
pub update_bet : ℕ → Payout → List Bet → List Bet
update_bet id p [] = []
update_bet id p (b ∷ bs) = (if b.id == id then paid p b else b) ∷ update_bet id p bs

abbrev outcome_value : Outcome → Option Bool
outcome_value settled_yes = some true
outcome_value settled_no = some false
outcome_value voided = none

pub update_contract_resolution : ℕ → Outcome → List Contract → List Contract
update_contract_resolution id o [] = []
update_contract_resolution id o (c ∷ cs) =
    (if c.id == id && not (is_some c.resolved)
      then record c { resolved = some (outcome_value o); is_active = false }
      else c)
    ∷ update_contract_resolution id o cs

abbrev same_outcome : Outcome → Outcome → Bool
same_outcome settled_yes settled_yes = true
same_outcome settled_no settled_no = true
same_outcome voided voided = true
same_outcome _ _ = false

-- The NWS report and Kalshi disagree.
abbrev disagrees : Option Outcome → Outcome → Bool
disagrees none k = false
disagrees (some n) voided = false
disagrees (some n) k = not (same_outcome n k)

abbrev notice_of : ℕ → Bool → BetStatus → List Notice
notice_of id true st = discrepancy_notice id ∷ []
notice_of id false bet_won = settle_notice id ∷ []
notice_of id false bet_lost = settle_notice id ∷ []
notice_of id false _ = []

-- The report of a ticker, with its observations stored, and the outcome it implies.
abbrev pub look_up_report : Outside → String → Desk → Option Outcome × Desk
unfolding insert_nws_cli_observations
look_up_report o ticker d = elim (parse_kalshi_weather_ticker ticker) [
  | none ↦ (none, d)
  | some m ↦ elim (o.fetch_nws_cli m.station m.day) [
    | none ↦ (none, d)
    | some r ↦ (
      derive_nws_outcome r m,
      record d { observations = insert_nws_cli_observations r d.observations },
    )
  ]
]

-- The rows after the decision; the notes divide the stake by the entry price.
pub settle_known : Outside → Bet → Option Outcome → Outcome → Desk → Option SettlementResult × Desk
unfolding update_bet update_contract_resolution
settle_known o b nws k d =
    let disc = disagrees nws k in
    let p = compute_payout b.side b.stake b.entry_price k in
    if not disc && b.entry_price == 0 then (none, d) else (
      some (record {
        bet_id = b.id;
        kalshi_outcome = some k;
        nws_outcome = nws;
        final = some p;
        discrepancy = disc;
      }),
      record d {
        bets = if o.commits b.id then update_bet b.id p d.bets else d.bets;
        contracts = update_contract_resolution b.contract_id k d.contracts;
        notices = d.notices ++ notice_of b.id disc p.status;
      },
    )

-- A market that has not settled leaves the bet as it is.
pub settle_reported :
    Outside → Bet → Option Outcome → Option Outcome × Desk → Option SettlementResult × Desk
unfolding settle_known
settle_reported o b none (nws, d) = (
  some (record {
    bet_id = b.id;
    kalshi_outcome = none;
    nws_outcome = nws;
    final = none;
    discrepancy = false;
  }),
  d,
)
settle_reported o b (some k) (nws, d) = settle_known o b nws k d

abbrev settle_answered :
    Outside → String → Bet → Desk → Option (Option Outcome) → Option SettlementResult × Desk
unfolding settle_reported look_up_report
settle_answered o ticker b d none = (none, d)
settle_answered o ticker b d (some k) = settle_reported o b k (look_up_report o ticker d)

-- none is an exception, after which the caller goes on.
pub settle_one_bet : Outside → String → Bet → Desk → Option SettlementResult × Desk
unfolding settle_answered fetch_kalshi_market_outcome
settle_one_bet o ticker b d =
    settle_answered o ticker b d (fetch_kalshi_market_outcome (o.get_market ticker))

-- The row of a contract.
abbrev pub find_contract : ℕ → List Contract → Option Contract
find_contract id [] = none
find_contract id (c ∷ cs) = if c.id == id then some c else find_contract id cs

abbrev pub is_open_bet : BetStatus → Bool
is_open_bet bet_open = true
is_open_bet _ = false

-- A bet with the ticker and the resolution day of its contract.
abbrev pub Due : Type 0
Due = ℕ × String × Bet

abbrev due_on : ℕ → Bet → Option Contract → List Due
due_on today b none = []
due_on today b (some c) = elim c.resolution_day [
  | none ↦ []
  | some day ↦ if ltb day today then (day, c.ticker, b) ∷ [] else []
]

-- `ORDER BY c.resolution_date ASC`
abbrev insert_due : Due → List Due → List Due
insert_due x [] = x ∷ []
insert_due x (y ∷ ys) = if ltb y.0 x.0 then y ∷ insert_due x ys else x ∷ y ∷ ys

abbrev insert_all : List Due → List Due → List Due
insert_all [] rows = rows
insert_all (x ∷ xs) rows = insert_due x (insert_all xs rows)

pub settleable_bets : ℕ → List Contract → List Bet → List Due
settleable_bets today contracts [] = []
settleable_bets today contracts (b ∷ bs) =
    let rest = settleable_bets today contracts bs in
    if is_open_bet b.status && b.on_kalshi
    then insert_all (due_on today b (find_contract b.contract_id contracts)) rest
    else rest

pub record Tally : Type 0 where
  pub settled : ℕ
  pub pending : ℕ
  pub discrepancies : ℕ
  pub results : List SettlementResult

abbrev counted : Option SettlementResult → Tally → Tally
counted none t = t
counted (some r) t = record {
  settled = if is_some r.final then t.settled + 1 else t.settled;
  pending = if is_some r.final then t.pending else t.pending + 1;
  discrepancies = if r.discrepancy then t.discrepancies + 1 else t.discrepancies;
  results = t.results ++ r ∷ [];
}

pub settle_each : Outside → List Due → Tally → Desk → Tally × Desk
unfolding settle_one_bet
settle_each o [] t d = (t, d)
settle_each o ((day, ticker, b) ∷ rest) t d =
    let (r, d') = settle_one_bet o ticker b d in settle_each o rest (counted r t) d'

pub settle_all_open_bets : Outside → Desk → Tally × Desk
unfolding settle_each settleable_bets
settle_all_open_bets o d =
    settle_each o (settleable_bets o.today d.contracts d.bets)
      (record { settled = 0; pending = 0; discrepancies = 0; results = [] }) d
