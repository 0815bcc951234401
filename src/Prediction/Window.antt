-- ===== src/Prediction/Window.antt =====
-- prediction_signal.py, PredictionSignal: the price updates of one polling window, the orders they place
-- and the rows they insert into weather_bets.
pub mod Acts
pub mod Limits
pub mod Once
pub mod Winnings
pub mod Settled
use blackhole_network.Base.{
  ℕ, ◌+◌, ◌-◌, ◌*◌, String, Bool, true, false, ◌&&◌, ◌||◌, Option, none, some, List, [], ◌∷◌, ◌++◌,
  ◌==◌, str_eq, if◌then◌else◌,
}
use blackhole_network.Prediction.Types.{Side, Bet, bet_open, Contract, Metadata}
use blackhole_network.Prediction.Ticker.{parse_kalshi_weather_ticker}
use blackhole_network.Prediction.Settlement.{is_open_bet}
use blackhole_network.Prediction.Decision.{Estimate, Rejection, BetDecision, evaluate_decision}

pub record Order : Type 0 where
  pub ticker : String
  pub side : Side
  pub count : ℕ
  pub price : ℕ

-- The object, with the orders of its calls of place_order, also of those that raised, and the table
-- weather_bets.
pub record Window : Type 0 where
  pub dry_run : Bool
  pub processed_tickers : List String
  pub orders : List Order
  pub bets : List Bet

-- What one update meets: the estimate of the model, the answer of place_order (none is an exception,
-- after which the order may stand),
-- the contracts, the day, whether the queries succeed, and the id of the row if the insert commits.
pub record Surroundings : Type 0 where
  pub estimate : Metadata → Estimate
  pub place_order : Order → Option (Option String)
  pub contracts : List Contract
  pub today : ℕ
  pub sums_stakes : Bool
  pub finds_contract : Bool
  pub new_row : Option ℕ

pub record Payload : Type 0 where
  pub ticker : String
  pub best_yes_cents : Option ℕ

-- The stats of an update; the last says whether an order was placed.
pub data Stats : Type 0 where
  no_stats : Stats
  not_opportunity : Option Rejection → Stats
  already_bet order_failed : Stats
  bet_stats : Bool → Stats

abbrev pub default_kalshi_allocation : ℕ
default_kalshi_allocation = 200000

-- `SUM(stake_usd)` over the open rows of a day
unfoldable pub drawn_on : ℕ → List Bet → ℕ
drawn_on day [] = 0
drawn_on day (b ∷ bs) =
    (if is_open_bet b.status && b.placed_day == day then b.stake else 0) + drawn_on day bs

-- A query that fails leaves the full allocation.
pub allocation_remaining_today : Surroundings → List Bet → ℕ
unfolding drawn_on
allocation_remaining_today s bets =
    if s.sums_stakes
    then default_kalshi_allocation - drawn_on s.today bets
    else default_kalshi_allocation

abbrev find_ticker : String → List Contract → Option ℕ
find_ticker t [] = none
find_ticker t (c ∷ cs) = if str_eq c.ticker t then some c.id else find_ticker t cs

abbrev lookup_contract_db_id : Surroundings → String → Option ℕ
lookup_contract_db_id s t = if s.finds_contract then find_ticker t s.contracts else none

-- The row of a bet, whose entry price is that of its side.
abbrev pub bet_row : ℕ → ℕ → ℕ → Side → BetDecision → Option String → Bet
bet_row id contract day side e order = record {
  id = id;
  contract_id = contract;
  on_kalshi = true;
  side = side;
  stake = e.stake;
  entry_price = 100 * e.limit_price_cents;
  placed_day = day;
  status = bet_open;
  payout = none;
  pnl = none;
  exchange_order_id = order;
}

pub insert_weather_bet_row :
    Surroundings → Option ℕ → Side → BetDecision → Option String → List Bet → List Bet
insert_weather_bet_row s (some contract) side e order bets = elim s.new_row [
  | none ↦ bets
  | some id ↦ bets ++ bet_row id contract s.today side e order ∷ []
]
insert_weather_bet_row s none side e order bets = bets

abbrev order_of : String → Side → BetDecision → Order
order_of t side e = record {
  ticker = t;
  side = side;
  count = e.contracts_to_buy;
  price = e.limit_price_cents;
}

-- The row of the bet, and the ticker marked.
abbrev recorded : Surroundings → String → Side → BetDecision → Option String → Window → Window
unfolding insert_weather_bet_row
recorded s t side e order w = record w {
  bets = insert_weather_bet_row s (lookup_contract_db_id s t) side e order w.bets;
  processed_tickers = t ∷ w.processed_tickers;
}

abbrev ordered :
    Surroundings → String → Side → BetDecision → Window → Option (Option String) → Stats × Window
unfolding recorded
ordered s t side e w none = (order_failed, record w { orders = order_of t side e ∷ w.orders })
ordered s t side e w (some id) =
    (bet_stats true, recorded s t side e id (record w { orders = order_of t side e ∷ w.orders }))

abbrev is_processed : String → List String → Bool
is_processed t [] = false
is_processed t (p ∷ ps) = str_eq p t || is_processed t ps

-- A decision that is an opportunity, which has a side.
pub act_on : Surroundings → String → Side → BetDecision → Window → Stats × Window
unfolding ordered
act_on s t side e w =
    if is_processed t w.processed_tickers
    then (already_bet, w)
    else if w.dry_run
    then (bet_stats false, recorded s t side e none w)
    else ordered s t side e w (s.place_order (order_of t side e))

abbrev judged : Surroundings → String → Window → BetDecision → Option Side → Stats × Window
unfolding act_on
judged s t w e none = (not_opportunity e.rejection, w)
judged s t w e (some side) =
    if e.is_opportunity then act_on s t side e w else (not_opportunity e.rejection, w)

abbrev quoted : Surroundings → String → ℕ → Window → Option Metadata → Stats × Window
unfolding judged allocation_remaining_today
quoted s t cents w none = (no_stats, w)
quoted s t cents w (some m) =
    let e = evaluate_decision (s.estimate m) cents (allocation_remaining_today s w.bets) in
    judged s t w e e.side

abbrev priced : Surroundings → String → Window → Option ℕ → Stats × Window
unfolding quoted
priced s t w none = (no_stats, w)
priced s t w (some cents) = quoted s t cents w (parse_kalshi_weather_ticker t)

pub on_market_update : Surroundings → Payload → Window → Stats × Window
unfolding priced
on_market_update s p w = priced s p.ticker w p.best_yes_cents

-- The updates of a window, each with its surroundings.
pub run_window : List (Surroundings × Payload) → Window → Window
unfolding on_market_update
run_window [] w = w
run_window ((s, p) ∷ rest) w = run_window rest (on_market_update s p w).1

-- A new object, over the table as it stands.
abbrev pub new_window : Bool → List Bet → Window
new_window dry_run bets = record {
  dry_run = dry_run;
  processed_tickers = [];
  orders = [];
  bets = bets;
}
