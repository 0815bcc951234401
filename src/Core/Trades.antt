-- ===== src/Core/Trades.antt =====
-- trading_core.py: the life of a signal and of a trade. Prices are in ten-thousandths of a dollar.
pub mod Invariant
pub mod Closing
pub mod Lasting
pub mod Count
use blackhole_network.Base.{
  ℕ, ◌+◌, ◌*◌, String, Bool, true, false, not, ◌&&◌, ◌||◌, Option, none, some, List, [], ◌∷◌, ◌++◌,
  map, length, keep, ltb, ◌==◌, str_eq, is_some, if◌then◌else◌,
}
use blackhole_network.Base.Int.{ℤ, pos, ◌-ℤ◌, neg, scale}
use blackhole_network.Core.Types.{
  Action, buy, hold, TradeStatus, opened, closed, ExitReason, Message, Ratio, Signal, Trade,
  Strategy,
}
use blackhole_network.Core.World.{
  World, Env, ok, raised, unknown_trade, already_closed, integrity_error, division_by_zero,
}
use blackhole_network.Core.Monad.{Call, pass, read, or_raise, raise_if, write, ◌>>=◌, ◌>>◌}
use blackhole_network.Core.Lifecycle.{find_strategy}

-- The foreign key to trading_strategies.
abbrev strategy_known : String → List Strategy → Bool
strategy_known sid rows = is_some (find_strategy sid rows)

unfoldable pub log_signal : String → String → Action → Message → Bool → Call ℕ
log_signal sid ticker action why acted_on w =
    let id = length w.signals + 1 in
    let row : Signal = record {
      id = id;
      strategy_id = sid;
      ticker = ticker;
      action = action;
      acted_on = acted_on;
      reason = why;
      trade_id = none;
    } in
    if strategy_known sid w.strategies
    then (ok id, record w { signals = w.signals ++ row ∷ [] })
    else (raised integrity_error, w)

abbrev pub link : ℕ → ℕ → Signal → Signal
link signal_id trade_id s = if s.id == signal_id then record s { trade_id = some trade_id } else s

unfoldable pub link_signal_to_trade : ℕ → ℕ → Call (Unit {0})
link_signal_to_trade signal_id trade_id =
    write (λ w. record w { signals = map (link signal_id trade_id) w.signals })

abbrev find_signal : ℕ → List Signal → Bool
find_signal id [] = false
find_signal id (s ∷ ss) = s.id == id || find_signal id ss

abbrev signal_known : Option ℕ → List Signal → Bool
signal_known none rows = true
signal_known (some id) rows = find_signal id rows

abbrev pub is_hold : Action → Bool
is_hold hold = true
is_hold _ = false

-- The arguments of `open_trade` and `place_order`.
pub record Ticket : Type 0 where
  pub strategy_id : String
  pub ticker : String
  pub side : Action
  pub qty : ℕ
  pub signal_id : Option ℕ
  pub stop_level : Option ℕ
  pub target_level : Option ℕ
  pub water_mark : Option ℕ

abbrev pub new_trade : Ticket → ℕ → Option String → ℕ → ℕ → Trade
new_trade t price order now id = record {
  id = id;
  strategy_id = t.strategy_id;
  ticker = t.ticker;
  side = t.side;
  qty = t.qty;
  entry_price = price;
  entry_time = now;
  status = opened;
  exit_price = none;
  exit_reason = none;
  pnl_dollar = none;
  pnl_pct = none;
  signal_id = t.signal_id;
  stop_level = t.stop_level;
  target_level = t.target_level;
  order_entry = order;
  order_exit = none;
  water_mark = t.water_mark;
}

-- The CHECK constraints and foreign keys of paper_trades.
abbrev pub trade_allowed : Ticket → ℕ → World → Bool
trade_allowed t price w =
    not (is_hold t.side)
    && (ltb 0 t.qty
        && (ltb 0 price
            && (strategy_known t.strategy_id w.strategies && signal_known t.signal_id w.signals)))

-- `if signal_id: link_signal_to_trade(signal_id, trade_id)`
abbrev link_if : Option ℕ → ℕ → World → World
link_if none trade_id w = w
link_if (some signal_id) trade_id w =
    if signal_id == 0 then w else record w { signals = map (link signal_id trade_id) w.signals }

module _ (env : Env) where
  -- The statement inserts a row, or breaks a constraint and raises.
  unfoldable pub open_trade : Ticket → ℕ → Option String → Call ℕ
  open_trade t price order w =
      let id = length w.trades + 1 in
      if trade_allowed t price w
      then (
        ok id,
        link_if t.signal_id id
            (record w { trades = w.trades ++ new_trade t price order env.now id ∷ [] }),
      )
      else (raised integrity_error, w)

-- `SELECT * FROM paper_trades WHERE id = …`
abbrev pub find_trade : ℕ → List Trade → Option Trade
find_trade id [] = none
find_trade id (t ∷ ts) = if t.id == id then some t else find_trade id ts

abbrev pub is_closed : TradeStatus → Bool
is_closed closed = true
is_closed opened = false

abbrev pub is_buy : Action → Bool
is_buy buy = true
is_buy _ = false

-- (exit_price - entry_price) * qty * sign
unfoldable pub pnl_dollar_of : Action → ℕ → ℕ → ℕ → ℤ
pnl_dollar_of side qty entry exit =
    let gain = scale qty (pos exit -ℤ pos entry) in if is_buy side then gain else neg gain

-- (pnl_dollar / (entry_price * qty)) * 100
unfoldable pub pnl_pct_of : ℤ → ℕ → ℕ → Ratio
pnl_pct_of pnl qty entry = record { num = scale 100 pnl; den = entry * qty }

abbrev pub closed_row : ℕ → ExitReason → Option String → Trade → Trade
unfolding pnl_dollar_of pnl_pct_of
closed_row exit why order t =
    let pnl = pnl_dollar_of t.side t.qty t.entry_price exit in
    record t {
      status = closed;
      exit_price = some exit;
      exit_reason = some why;
      pnl_dollar = some pnl;
      pnl_pct = some (pnl_pct_of pnl t.qty t.entry_price);
      order_exit = order;
    }

-- `UPDATE paper_trades SET … WHERE id = …`
abbrev pub update_trade : ℕ → (Trade → Trade) → List Trade → List Trade
update_trade id f [] = []
update_trade id f (t ∷ ts) = (if t.id == id then f t else t) ∷ update_trade id f ts

-- The dict that `close_trade` returns.
pub record Closed : Type 0 where
  pub trade_id : ℕ
  pub pnl_dollar : ℤ
  pub pnl_pct : Ratio
  pub duration_seconds : ℤ
  pub ticker : String
  pub side : Action

module _ (env : Env) where
  unfoldable pub close_row : ℕ → ℕ → ExitReason → Option String → Trade → Call Closed
  unfolding closed_row
  close_row id exit why order row = do
    raise_if (is_closed row.status) (already_closed id)
    raise_if (row.entry_price * row.qty == 0) division_by_zero
    let pnl = pnl_dollar_of row.side row.qty row.entry_price exit
    write (λ w. record w { trades = update_trade id (closed_row exit why order) w.trades })
    pass (record {
      trade_id = id;
      pnl_dollar = pnl;
      pnl_pct = pnl_pct_of pnl row.qty row.entry_price;
      duration_seconds = pos env.now -ℤ pos row.entry_time;
      ticker = row.ticker;
      side = row.side;
    })

  unfoldable pub close_trade : ℕ → ℕ → ExitReason → Option String → Call Closed
  unfolding close_row
  close_trade id exit why order w =
      (or_raise (find_trade id w.trades) (unknown_trade id) >>= close_row id exit why order) w

abbrev pub is_open : Trade → Bool
is_open t = not (is_closed t.status)

-- `ORDER BY entry_time DESC`, rows of one time in their order in the table
insert_row : Trade → List Trade → List Trade
insert_row t [] = t ∷ []
insert_row t (u ∷ us) = if ltb t.entry_time u.entry_time then u ∷ insert_row t us else t ∷ u ∷ us

newest_first : List Trade → List Trade
unfolding insert_row
newest_first [] = []
newest_first (t ∷ ts) = insert_row t (newest_first ts)

-- The filter on the strategy, which an empty text leaves out.
abbrev of_strategy : Option String → Trade → Bool
of_strategy none t = true
of_strategy (some sid) t = str_eq sid "" || str_eq t.strategy_id sid

unfoldable pub get_open_trades : Option String → Call (List Trade)
unfolding newest_first
get_open_trades sid = read (λ w. newest_first (keep (λ t. is_open t && of_strategy sid t) w.trades))
