-- ===== src/Monitor/Positions.antt =====
-- weather_position_monitor.py: the open positions, with their prices and forecasts. Prices are in
-- ten-thousandths of a dollar, temperatures in tenths of a degree, times in seconds, and a day is
-- the number of days since the epoch.
use blackhole_network.Base.{
  ℕ, ◌/◌, String, Bool, true, false, not, ◌&&◌, ◌||◌, Option, none, some, List, [], ◌∷◌, map, ltb,
  ◌==◌, str_eq, if◌then◌else◌,
}
use blackhole_network.Base.Int.{ℤ, pos, ◌-ℤ◌}
use blackhole_network.Prediction.Types.{Side, yes_side, no_side}

-- kalshi_positions
pub record PositionSnapshot : Type 0 where
  pub contract_ticker : String
  pub side : Side
  pub contracts : ℕ
  pub avg_price : Option ℕ
  pub captured_at : ℕ

-- weather_kalshi_contract_catalog
pub record CatalogRow : Type 0 where
  pub market_ticker : String
  pub city : Option String
  pub station_code : Option String
  pub bucket_floor : Option ℤ
  pub bucket_cap : Option ℤ
  pub target_day : Option ℕ

-- weather_bronze_kalshi_market_snapshots
pub record MarketSnapshot : Type 0 where
  pub market_ticker : String
  pub yes_mid : Option ℕ
  pub yes_bid : Option ℕ
  pub retrieved_at : ℕ

-- weather_bronze_nws_forecast_snapshots
pub record ForecastSnapshot : Type 0 where
  pub station_code : String
  pub target_day : ℕ
  pub tmax_f : Option ℤ
  pub forecast_run_time : ℕ

pub record Tables : Type 0 where
  pub positions : List PositionSnapshot
  pub catalog : List CatalogRow
  pub markets : List MarketSnapshot
  pub forecasts : List ForecastSnapshot

pub record Position : Type 0 where
  pub contract_ticker : String
  pub side : Side
  pub contracts : ℕ
  pub avg_price : Option ℕ
  pub city : Option String
  pub station_code : Option String
  pub bucket_floor : Option ℤ
  pub bucket_cap : Option ℤ
  pub target_day : Option ℕ
  pub entry_implied_prob : Option ℤ
  pub current_yes_mid : Option ℕ
  pub current_yes_bid : Option ℕ
  pub nws_forecast_now : Option ℤ
  pub nws_forecast_entry : Option ℤ

-- `if x > 1.0: x / 100.0`, for prices in cents
abbrev pub normalized : ℕ → ℕ
normalized x = if ltb 10000 x then x / 100 else x

abbrev normalized_price : Option ℕ → Option ℕ
normalized_price none = none
normalized_price (some x) = some (normalized x)

abbrev pub entry_implied : Side → Option ℕ → Option ℤ
entry_implied side none = none
entry_implied yes_side (some x) = some (pos x)
entry_implied no_side (some x) = some (pos 10000 -ℤ pos x)

-- No row of the ticker is later: `DISTINCT ON (contract_ticker) … ORDER BY captured_at DESC`
abbrev is_latest : PositionSnapshot → List PositionSnapshot → Bool
is_latest p [] = true
is_latest p (q ∷ qs) =
    let rest = is_latest p qs in
    if str_eq q.contract_ticker p.contract_ticker && ltb p.captured_at q.captured_at
    then false
    else rest

-- A row further on has the same ticker and time: `DISTINCT ON` keeps one of them, here the last.
abbrev has_twin : PositionSnapshot → List PositionSnapshot → Bool
has_twin p [] = false
has_twin p (q ∷ qs) =
    (str_eq q.contract_ticker p.contract_ticker && p.captured_at == q.captured_at) || has_twin p qs

abbrev find_catalog : String → List CatalogRow → Option CatalogRow
find_catalog ticker [] = none
find_catalog ticker (c ∷ cs) =
    if str_eq c.market_ticker ticker then some c else find_catalog ticker cs

abbrev uncatalogued : PositionSnapshot → Option ℕ → Position
uncatalogued p price = record {
  contract_ticker = p.contract_ticker;
  side = p.side;
  contracts = p.contracts;
  avg_price = price;
  city = none;
  station_code = none;
  bucket_floor = none;
  bucket_cap = none;
  target_day = none;
  entry_implied_prob = entry_implied p.side price;
  current_yes_mid = none;
  current_yes_bid = none;
  nws_forecast_now = none;
  nws_forecast_entry = none;
}

abbrev loaded : PositionSnapshot → Option ℕ → Option CatalogRow → Position
loaded p price none = uncatalogued p price
loaded p price (some c) = record (uncatalogued p price) {
  city = c.city;
  station_code = c.station_code;
  bucket_floor = c.bucket_floor;
  bucket_cap = c.bucket_cap;
  target_day = c.target_day;
}

abbrev load_rows : Tables → List PositionSnapshot → List Position
load_rows t [] = []
load_rows t (p ∷ ps) =
    let rest = load_rows t ps in
    if (is_latest p t.positions && not (has_twin p ps)) && ltb 0 p.contracts
    then loaded p (normalized_price p.avg_price) (find_catalog p.contract_ticker t.catalog) ∷ rest
    else rest

unfoldable pub load_open_positions : Tables → List Position
load_open_positions t = load_rows t t.positions

-- The latest row of a ticker, given the one found so far.
abbrev later : Option MarketSnapshot → MarketSnapshot → Option MarketSnapshot
later none m = some m
later (some b) m = if ltb b.retrieved_at m.retrieved_at then some m else some b

abbrev latest_market : String → Option MarketSnapshot → List MarketSnapshot → Option MarketSnapshot
latest_market ticker best [] = best
latest_market ticker best (m ∷ ms) =
    latest_market ticker (if str_eq m.market_ticker ticker then later best m else best) ms

abbrev enrich_market : List MarketSnapshot → Position → Position
enrich_market rows p = elim (latest_market p.contract_ticker none rows) [
  | none ↦ p
  | some m ↦ record p {
    current_yes_mid = normalized_price m.yes_mid;
    current_yes_bid = normalized_price m.yes_bid;
  }
]

unfoldable pub enrich_market_prices : Tables → List Position → List Position
enrich_market_prices t ps = map (enrich_market t.markets) ps

abbrev is_forecast_for : String → ℕ → ForecastSnapshot → Bool
is_forecast_for station day f = str_eq f.station_code station && f.target_day == day

-- The latest run of a station and day, or the earliest.
abbrev preferred : Bool → Option ForecastSnapshot → ForecastSnapshot → Option ForecastSnapshot
preferred latest none f = some f
preferred true (some b) f = if ltb b.forecast_run_time f.forecast_run_time then some f else some b
preferred false (some b) f = if ltb f.forecast_run_time b.forecast_run_time then some f else some b

abbrev find_forecast :
    Bool → String → ℕ → Option ForecastSnapshot → List ForecastSnapshot → Option ForecastSnapshot
find_forecast latest station day best [] = best
find_forecast latest station day best (f ∷ fs) =
    find_forecast latest station day
      (if is_forecast_for station day f then preferred latest best f else best) fs

abbrev tmax_of : Option ForecastSnapshot → Option ℤ
tmax_of none = none
tmax_of (some f) = f.tmax_f

abbrev forecast_for : Bool → Option String → Option ℕ → List ForecastSnapshot → Option ℤ
forecast_for latest (some String.[]) day rows = none
forecast_for latest (some station) (some day) rows =
    tmax_of (find_forecast latest station day none rows)
forecast_for latest _ _ rows = none

abbrev enrich_forecast : List ForecastSnapshot → Position → Position
enrich_forecast rows p = record p {
  nws_forecast_now = forecast_for true p.station_code p.target_day rows;
  nws_forecast_entry = forecast_for false p.station_code p.target_day rows;
}

unfoldable pub enrich_nws_forecasts : Tables → List Position → List Position
enrich_nws_forecasts t ps = map (enrich_forecast t.forecasts) ps
