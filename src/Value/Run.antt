-- ===== src/Value/Run.antt =====
-- scripts/trading/strategy_value.py: one run of strategy 2. The merged rules, whether there is a key for the
-- FMP service, its answers and the bars of the broker are arguments.
pub mod Exits
pub mod Lasting
pub mod Cap
use blackhole_network.Base.{
  ℕ, ◌+◌, ◌-◌, ◌*◌, ◌/◌, String, Bool, true, false, not, Option, none, some, List, [], ◌∷◌, ◌++◌,
  map, length, elem, take_first, leb, str_eq, ◌==◌, if◌then◌else◌,
}
use blackhole_network.Core.Types.{
  ExitReason, time_exit, stop_loss, target, buy, sell, error, note, signal_text, Trade,
}
use blackhole_network.Core.World.{
  Env, Client, Result, Order, Json, Fields, Items, str, obj, arr, nil, cons, division_by_zero,
}
use blackhole_network.Core.Monad.{Call, pass, answer, raise_if, try_except, ◌>>=◌, ◌>>◌}
use blackhole_network.Core.Json.{lookup, truth}
use blackhole_network.Core.Lifecycle.{update_strategy_status}
use blackhole_network.Core.Clients.{load_env, get_alpaca}
use blackhole_network.Core.Trades.{Ticket, log_signal, get_open_trades, close_trade}
use blackhole_network.Core.Orders.{submit_order}
use blackhole_network.Nasdaq.Run.{guarded}
use blackhole_network.Strategies.Entry.{order_or_log, run_with_rules}
use blackhole_network.Value.Company.{
  Rules, Endpoint, ratios_ttm, earning_calendar, Candidate, sort_qualifying, symbols_of, fmp_get,
  get_row, qualify,
}
use blackhole_network.Value.Screen.{
  Figure, lt, Answer, Filters, fetched, first_row, float_of, pe_of, pb_of, roe_of, compute_de_ratio,
  decline_of, declined, ratios_pass,
}

-- STRATEGY_ID
abbrev pub strategy_id : String
strategy_id = "strat_2_value"

-- price * (1 - pct), rounded to ten-thousandths
abbrev stop_of : ℕ × ℕ → ℕ → ℕ
stop_of (n, d) price = (2 * (price * (d - n)) + d) / (2 * d)

module _ (env : Env) (has_key : Bool) (fmp : Endpoint → ℕ → Answer)
    (bars : Client → String → Result (List ℕ)) (rules : Rules) where
  abbrev fill_of : Client → Trade → Option ℕ → Call ℕ
  fill_of client t none = answer (env.latest_trade client t.ticker)
  fill_of client t (some p) = if p == 0 then answer (env.latest_trade client t.ticker) else pass p

  -- `_exit_at_market`; the side is always "sell".
  pub exit_at_market : Trade → ExitReason → Call (Unit {0})
  exit_at_market t why =
      try_except
        (do
          client ← get_alpaca env
          order ←
              submit_order env client
                (record { symbol = t.ticker; qty = t.qty; side = sell; limit_price = none })
          fill ← fill_of client t order.filled_avg_price
          closed ← close_trade env t.id fill why (some order.id)
          pass tt)
        (λ e. pass tt)

  abbrev above_target : Option Figure → Bool
  above_target none = false
  above_target (some pe) = lt rules.pe_target_max pe

  abbrev pe_in : Option Fields → Option Figure
  pe_in none = none
  pe_in (some r) = float_of (pe_of r)

  abbrev check_price : Trade → Option ℕ → Call (Unit {0})
  check_price t none = pass tt
  check_price t (some current) =
      let (n, d) = rules.stop_loss_pct in
      if leb (current * d) (t.entry_price * (d - n)) then exit_at_market t stop_loss else (do
        r ← get_row env has_key fmp bars rules (ratios_ttm t.ticker)
        if above_target (pe_in r) then exit_at_market t target else pass tt)

  abbrev price_on : Client → String → Call (Option ℕ)
  price_on client ticker =
      try_except (answer (env.latest_trade client ticker) >>= λ p. pass (some p)) (λ e. pass none)

  abbrev check_exit : Client → Trade → Call (Unit {0})
  check_exit client t =
      if leb (rules.hold_days * 86400) (env.now - t.entry_time)
      then exit_at_market t time_exit
      else (price_on client t.ticker >>= check_price t)

  exit_each : Client → List Trade → Call (Unit {0})
  exit_each client [] = pass tt
  exit_each client (t ∷ ts) = check_exit client t >> exit_each client ts

  abbrev exit_held : List Trade → Call (Unit {0})
  exit_held [] = pass tt
  exit_held (t ∷ ts) = get_alpaca env >>= λ client. exit_each client (t ∷ ts)

  pub process_exits : Call (Unit {0})
  process_exits = get_open_trades (some strategy_id) >>= exit_held

  abbrev entry_ticket : String → ℕ → ℕ → ℕ → Ticket
  entry_ticket ticker qty price id = record {
    strategy_id = strategy_id;
    ticker = ticker;
    side = buy;
    qty = qty;
    signal_id = some id;
    stop_level = some (stop_of rules.stop_loss_pct price);
    target_level = none;
    water_mark = none;
  }

  -- Whether the order was placed.
  abbrev buy_at : ℕ → String → Option ℕ → Call Bool
  buy_at allocation ticker none = pass false
  buy_at allocation ticker (some price) = do
    raise_if (price == 0) division_by_zero
    let qty = allocation / (rules.max_positions * price)
    if qty == 0 then pass false else (do
      id ← log_signal strategy_id ticker buy (signal_text (some ticker)) true
      order_or_log env (entry_ticket ticker qty price id) id)

  buy_each : Client → ℕ → List Candidate → Call (Unit {0})
  buy_each client allocation [] = pass tt
  buy_each client allocation ((ticker, pe) ∷ cs) = do
    price ← price_on client ticker
    placed ← buy_at allocation ticker price
    buy_each client allocation cs

  abbrev buy_top : ℕ → ℕ → List Candidate → Call (Unit {0})
  buy_top allocation open_count [] = pass tt
  buy_top allocation open_count (c ∷ cs) = do
    let selected = take_first (rules.max_positions - open_count) (sort_qualifying (c ∷ cs))
    client ← get_alpaca env
    buy_each client allocation selected

  abbrev enter_with : ℕ → List Trade → Call (Unit {0})
  enter_with allocation trades = if leb rules.max_positions (length trades) then pass tt else (do
    data_ ← fmp_get env has_key fmp bars rules earning_calendar
    found ←
        qualify env has_key fmp bars rules (symbols_of data_) (map (λ t. t.ticker) trades)
          rules.universe []
    buy_top allocation (length trades) found)

  abbrev enter_from : ℕ → List String → Call (Unit {0})
  enter_from allocation [] = pass tt
  enter_from allocation (u ∷ us) = get_open_trades (some strategy_id) >>= enter_with allocation

  pub process_entries : ℕ → Call (Unit {0})
  process_entries allocation = enter_from allocation rules.universe

  pub cycle : ℕ → Call (Unit {0})
  cycle allocation = process_exits >> process_entries allocation

  -- Without a key the strategy is left in error.
  abbrev with_key : ℕ → Call ℕ
  with_key allocation = do
    core ← load_env
    if has_key then guarded env strategy_id cycle allocation else (do
      update_strategy_status strategy_id error (note "FMP_API_KEY not configured")
      pass 1)

  pub main : Call ℕ
  main = run_with_rules env strategy_id with_key
