-- ===== src/Momentum/Run.antt =====
-- scripts/trading/strategy_momentum.py: one run of strategy 4. The merged rules and the bars that the
-- broker answers are arguments.
pub mod Entries
pub mod Exits
use blackhole_network.Base.{
  max_of, ℕ, ◌+◌, ◌-◌, ◌*◌, ◌/◌, String, Bool, true, false, Option, none, some, List, [], ◌∷◌, ◌++◌,
  map, length, any, elem, take_first, last_value, leb, ltb, ◌==◌, if◌then◌else◌,
}
use blackhole_network.Core.Types.{
  ExitReason, trailing_stop, manual, buy, sell, Message, note, signal_text, Trade,
}
use blackhole_network.Core.World.{
  Env, Client, Result, Error, value_error, integrity_error, division_by_zero, attribute_error,
  broker_error, no_strategy_client, type_error,
}
use blackhole_network.Core.Monad.{
  Call, pass, raise, answer, raise_if, write, try_except, ◌>>=◌, ◌>>◌,
}
use blackhole_network.Core.Clients.{get_alpaca}
use blackhole_network.Core.Trades.{log_signal, get_open_trades, close_trade}
use blackhole_network.Core.Orders.{or_price, submit_order, place_order}
use blackhole_network.Nasdaq.Risk.{persist_water_mark}
use blackhole_network.Nasdaq.Run.{ticket, guarded}
use blackhole_network.Strategies.Entry.{order_or_log, run_with_rules}
use blackhole_network.Momentum.Bars.{
  Bar, Rules, Metrics, compute_metrics, is_golden_cross, is_death_cross, has_volume_confirm,
  compute_position_size, highest_since, stop_reached,
}

-- STRATEGY_ID
abbrev pub strategy_id : String
strategy_id = "strat_4_momentum"

-- 201 bars are needed.
abbrev enough_bars : List Bar → Option (List Bar)
enough_bars bars = if ltb (length bars) 201 then none else some bars

abbrev pub Candidate : Type 0
Candidate = String × Metrics

-- candidates.sort(key=vol_today / vol_avg, reverse=True), which is stable; the averages have one period.
abbrev weaker : Metrics → Metrics → Bool
weaker m n = ltb (m.vol_today * n.vol_avg.0) (n.vol_today * m.vol_avg.0)

pub insert_candidate : Candidate → List Candidate → List Candidate
insert_candidate c [] = c ∷ []
insert_candidate (k, m) ((j, n) ∷ rest) =
    if weaker m n then (j, n) ∷ insert_candidate (k, m) rest else (k, m) ∷ (j, n) ∷ rest

pub sort_candidates : List Candidate → List Candidate
sort_candidates [] = []
sort_candidates (c ∷ cs) = insert_candidate c (sort_candidates cs)

abbrev mark_or_zero : Option ℕ → ℕ
mark_or_zero none = 0
mark_or_zero (some m) = m

module _ (env : Env) (bars : Client → String → Result (List Bar)) (rules : Rules) where
  -- The client is made outside the `try`.
  pub fetch_daily_bars : String → Call (Option (List Bar))
  fetch_daily_bars ticker = do
    client ← get_alpaca env
    try_except (answer (bars client ticker) >>= λ bs. pass (enough_bars bs)) (λ e. pass none)

  -- The side is always "sell".
  pub exit_position : Trade → ℕ → ExitReason → Call (Unit {0})
  exit_position t price why =
      try_except
        (do
          client ← get_alpaca env
          order ←
              submit_order env client
                (record { symbol = t.ticker; qty = t.qty; side = sell; limit_price = none })
          closed ← close_trade env t.id (or_price order.filled_avg_price price) why (some order.id)
          pass tt)
        (λ e. pass tt)

  abbrev trail : Trade → ℕ → Option ℕ → Call (Unit {0})
  trail t close none = pass tt
  trail t close (some highest) = do
    let peak = max_of highest (mark_or_zero t.water_mark)
    if ltb (mark_or_zero t.water_mark) peak then persist_water_mark t.id peak else pass tt
    if stop_reached rules.trailing_stop_pct peak close
        then exit_position t close trailing_stop
        else pass tt

  abbrev dies : Option Metrics → Bool
  dies none = false
  dies (some m) = is_death_cross m

  abbrev check_exit : Trade → Option (List Bar) → Call (Unit {0})
  check_exit t none = pass tt
  check_exit t (some bs) =
      let close = last_value (map (λ b. b.close) bs) in
      if dies (compute_metrics bs rules)
      then exit_position t close manual
      else trail t close (highest_since (t.entry_time / 86400) bs)

  exit_each : List Trade → Call (Unit {0})
  exit_each [] = pass tt
  exit_each (t ∷ ts) = do bs ← fetch_daily_bars t.ticker; check_exit t bs; exit_each ts

  pub process_exits : Call (Unit {0})
  process_exits = get_open_trades (some strategy_id) >>= exit_each

  abbrev consider : String → List Candidate → Option Metrics → Call (List Candidate)
  consider ticker found none = pass found
  consider ticker found (some m) =
      if is_golden_cross m
      then if has_volume_confirm m rules.volume_confirm_multiplier
        then pass (found ++ (ticker, m) ∷ [])
        else (log_signal strategy_id ticker buy (note "golden cross but volume not confirmed") false
            >>= λ id. pass found)
      else pass found

  abbrev measure : Option (List Bar) → Option Metrics
  measure none = none
  measure (some bs) = compute_metrics bs rules

  pub scan : List String → List String → List Candidate → Call (List Candidate)
  scan held [] found = pass found
  scan held (ticker ∷ tickers) found = if elem ticker held then scan held tickers found else (do
    bs ← fetch_daily_bars ticker
    more ← consider ticker found (measure bs)
    scan held tickers more)

  -- The call of place_order names trailing_stop_pct, which is none of its parameters: a TypeError,
  -- which `except RuntimeError` does not catch.
  abbrev enter_one : ℕ → ℕ → Candidate → Call (Unit {0})
  enter_one allocation open_count (ticker, m) =
      let qty = compute_position_size allocation rules.max_positions open_count m.today_close in
      if qty == 0
      then pass tt
      else (log_signal strategy_id ticker buy (signal_text (some ticker)) true >>= λ id.
          raise type_error)

  enter_each : ℕ → ℕ → List Candidate → Call (Unit {0})
  enter_each allocation open_count [] = pass tt
  enter_each allocation open_count (c ∷ cs) =
      enter_one allocation open_count c >> enter_each allocation open_count cs

  -- The ratio of the volumes is the key of the sort.
  abbrev enter_top : ℕ → ℕ → List Candidate → Call (Unit {0})
  enter_top allocation open_count found = do
    raise_if (any (λ c. c.1.vol_avg.0 == 0) found) division_by_zero
    enter_each allocation open_count
        (take_first (rules.max_positions - open_count) (sort_candidates found))

  abbrev enter_with : ℕ → List Trade → Call (Unit {0})
  enter_with allocation trades = if leb rules.max_positions (length trades) then pass tt else (do
    found ← scan (map (λ t. t.ticker) trades) rules.universe []
    enter_top allocation (length trades) found)

  pub process_entries : ℕ → Call (Unit {0})
  process_entries allocation = get_open_trades (some strategy_id) >>= enter_with allocation

  pub cycle : ℕ → Call (Unit {0})
  cycle allocation = process_exits >> process_entries allocation

  pub main : Call ℕ
  main = run_with_rules env strategy_id (guarded env strategy_id cycle)
