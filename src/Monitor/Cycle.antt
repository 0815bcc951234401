-- ===== src/Monitor/Cycle.antt =====
-- weather_position_monitor.py: one cycle, its exit rows, its messages and its sell orders.
pub mod Accounts
use blackhole_network.Base.{
  ℕ, ◌+◌, ◌-◌, ◌*◌, ◌/◌, String, Bool, true, false, ◌&&◌, Option, none, some, List, [], ◌∷◌, ◌++◌,
  ltb, leb, if◌then◌else◌,
}
use blackhole_network.Base.Int.{ℤ}
use blackhole_network.Prediction.Types.{Side}
use blackhole_network.Prediction.Payout.{round_half_even}
use blackhole_network.Monitor.Positions.{
  Tables, Position, load_open_positions, enrich_market_prices, enrich_nws_forecasts,
}
use blackhole_network.Monitor.Triggers.{Settings, Trigger, TriggerType, evaluate_triggers}

-- weather_position_exits
pub record ExitRow : Type 0 where
  pub market_ticker : String
  pub city : String
  pub contract_side : Side
  pub bucket_floor : Option ℤ
  pub bucket_cap : Option ℤ
  pub trigger : Trigger
  pub entry_price : Option ℕ
  pub contracts : ℕ
  pub entry_implied_prob : Option ℤ
  pub exit_implied_prob : Option ℕ
  pub forecast_at_entry : Option ℤ
  pub forecast_at_exit : Option ℤ
  pub is_dry_run : Bool

pub record Message : Type 0 where
  pub subject : String
  pub side : Side
  pub contracts : ℕ
  pub trigger : Trigger

pub record SellOrder : Type 0 where
  pub ticker : String
  pub side : Side
  pub count : ℕ
  pub price : ℕ

pub record Floor : Type 0 where
  pub exits : List ExitRow
  pub messages : List Message
  pub orders : List SellOrder

-- The clock, whether Twilio is configured and takes a message, whether the exchange takes an order,
-- and whether an insert succeeds.
pub record Services : Type 0 where
  pub now : ℕ
  pub takes_message : Message → Bool
  pub takes_order : SellOrder → Bool
  pub inserts : ExitRow → Bool

-- `text or other`
abbrev text_or : Option String → String → String
text_or none other = other
text_or (some String.[]) other = other
text_or (some s) other = s

abbrev pub exit_row : Bool → Position → Trigger → ExitRow
exit_row dry p t = record {
  market_ticker = p.contract_ticker;
  city = text_or p.city "UNKNOWN";
  contract_side = p.side;
  bucket_floor = p.bucket_floor;
  bucket_cap = p.bucket_cap;
  trigger = t;
  entry_price = p.avg_price;
  contracts = p.contracts;
  entry_implied_prob = p.entry_implied_prob;
  exit_implied_prob = p.current_yes_mid;
  forecast_at_entry = p.nws_forecast_entry;
  forecast_at_exit = p.nws_forecast_now;
  is_dry_run = dry;
}

-- none is the exception of a failed insert.
pub log_exit : Services → Bool → Position → Trigger → Floor → Option Floor
log_exit s dry p t f =
    let row = exit_row dry p t in
    if s.inserts row then some (record f { exits = row ∷ f.exits }) else none

pub send_sms : Services → Position → Trigger → Floor → Floor
send_sms s p t f =
    let m : Message = record {
      subject = text_or p.city p.contract_ticker;
      side = p.side;
      contracts = p.contracts;
      trigger = t;
    } in
    if s.takes_message m then record f { messages = m ∷ f.messages } else f

-- A cent below the bid, at least one cent.
abbrev pub exit_price : ℕ → ℕ
exit_price bid =
    let fraction = if leb 100 (bid - 100) then bid - 100 else 100 in
    let cents = round_half_even fraction 100 in if leb 1 cents then cents else 1

abbrev sold_at : Services → Position → Option ℕ → Floor → Floor
sold_at s p none f = f
sold_at s p (some bid) f =
    let o : SellOrder = record {
      ticker = p.contract_ticker;
      side = p.side;
      count = p.contracts;
      price = exit_price bid;
    } in
    if s.takes_order o then record f { orders = o ∷ f.orders } else f

pub place_exit_order : Services → Position → Floor → Floor
place_exit_order s p f = sold_at s p p.current_yes_bid f

-- After the row: a dry run goes on, a live one sends the message and places the order.
pub logged : Settings → Services → Position → Trigger → Floor → Floor
unfolding send_sms place_exit_order
logged g s p t f = if g.dry_run then f else place_exit_order s p (send_sms s p t f)

-- The positions in turn: none is an exception, with what the cycle had done by then.
pub run_positions : Settings → Services → List Position → ℕ → Floor → Option ℕ × Floor
unfolding logged log_exit
run_positions g s [] n f = (some n, f)
run_positions g s (p ∷ ps) n f = elim (evaluate_triggers g s.now p) [
  | none ↦ run_positions g s ps n f
  | some t ↦ elim (log_exit s g.dry_run p t f) [
    | none ↦ (none, f)
    | some f' ↦ run_positions g s ps (n + 1) (logged g s p t f')
  ]
]

-- The connection commits the rows, or rolls them back on an exception.
abbrev committed : List ExitRow → Option ℕ × Floor → Option ℕ × Floor
committed before (some n, f) = (some n, f)
committed before (none, f) = (none, record f { exits = before })

pub run_cycle : Settings → Services → Tables → Floor → Option ℕ × Floor
unfolding run_positions
run_cycle g s t f =
    if g.enabled
    then committed f.exits (
        run_positions g s (enrich_nws_forecasts t (enrich_market_prices t (load_open_positions t)))
          0 f)
    else (some 0, f)
