-- ===== src/Nasdaq/Long.antt =====
-- scripts/trading/strategy_nasdaq_long.py: one run of strategy 6. The scores of the ranking come from
-- the regression, which is not modelled, and are an argument; so are the texts of logs.
pub mod Lasting
use blackhole_network.Base.{
  ℕ, ◌+◌, ◌*◌, ◌/◌, String, Bool, true, false, Option, none, some, List, [], ◌∷◌, ◌==◌, str_eq,
  if◌then◌else◌,
}
use blackhole_network.Core.Types.{
  buy, info, manual, Message, note, signal_text, transition_text, Trade,
}
use blackhole_network.Core.World.{Env, Client, division_by_zero}
use blackhole_network.Core.Monad.{Call, pass, raise_if, try_except, ◌>>=◌, ◌>>◌}
use blackhole_network.Core.Breakers.{send_alert}
use blackhole_network.Core.Clients.{get_alpaca}
use blackhole_network.Core.Trades.{get_open_trades, close_trade}
use blackhole_network.Core.Orders.{or_price}
use blackhole_network.Nasdaq.Risk.{
  RiskCheckResult, profit_target_long_pct, evaluate_trade, close_with_alert,
}
use blackhole_network.Nasdaq.Run.{
  is_signal_day, holds_on, get_live_price, submit_close, order_shares, run_main,
}
use blackhole_network.Nasdaq.State.{NasdaqState, flat, in_position, parked, derive_state}
use blackhole_network.Nasdaq.Signal.{
  RegressionScore, long_leader, park_ticker, evaluate_long_signal,
}

-- STRATEGY_ID
abbrev pub strategy_id : String
strategy_id = "strat_6_nasdaq_long"

-- RISK_TICKERS
abbrev pub risk_tickers : List String
risk_tickers = "QLD" ∷ []

abbrev same_ticker : Option String → Option String → Bool
same_ticker none none = true
same_ticker none (some b) = false
same_ticker (some a) none = false
same_ticker (some a) (some b) = str_eq a b

abbrev first_ticker : List Trade → Option String
first_ticker [] = none
first_ticker (t ∷ ts) = some t.ticker

abbrev is_empty : List Trade → Bool
is_empty [] = true
is_empty (t ∷ ts) = false

abbrev state_value : NasdaqState → String
state_value flat = "flat"
state_value in_position = "in_position"
state_value parked = "parked"

abbrev same_state : NasdaqState → NasdaqState → Bool
same_state a b = str_eq (state_value a) (state_value b)

-- nasdaq_state.announce_transition
pub announce_transition : NasdaqState → NasdaqState → Message → Call (Unit {0})
announce_transition old new why =
    if same_state old new
    then pass tt
    else send_alert info (transition_text strategy_id (state_value old) (state_value new) why)

module _ (env : Env) where
  abbrev risk_close : Trade → ℕ → RiskCheckResult → Client → Call Bool
  risk_close t price result client =
      try_except
        (do
          order ← submit_close env client t
          closed ←
              close_with_alert env t (or_price order.filled_avg_price price) result (some order.id)
          pass true)
        (λ e. pass false)

  abbrev risk_checked : Trade → ℕ → RiskCheckResult → Call Bool
  risk_checked t price result =
      if holds_on result.action then pass false else (get_alpaca env >>= risk_close t price result)

  abbrev risk_check : Trade → Option ℕ → Call Bool
  risk_check t none = pass false
  risk_check t (some price) =
      evaluate_trade env t price profit_target_long_pct true >>= risk_checked t price

  -- The number of trades that were closed.
  risk_check_each : List Trade → ℕ → Call ℕ
  risk_check_each [] n = pass n
  risk_check_each (t ∷ ts) n = do
    price ← get_live_price env (some t.ticker)
    closed ← risk_check t price
    risk_check_each ts (if closed then n + 1 else n)

  pub risk_check_open_trades : Call ℕ
  risk_check_open_trades = get_open_trades (some strategy_id) >>= λ trades. risk_check_each trades 0

  abbrev liquidate_one : Client → Trade → ℕ → Call (Unit {0})
  liquidate_one client t price =
      try_except
        (do
          order ← submit_close env client t
          closed ←
              close_trade env t.id (or_price order.filled_avg_price price) manual (some order.id)
          pass tt)
        (λ e. pass tt)

  liquidate_each : Client → List Trade → Call (Unit {0})
  liquidate_each client [] = pass tt
  liquidate_each client (t ∷ ts) = do
    price ← get_live_price env (some t.ticker)
    liquidate_one client t (or_price price t.entry_price)
    liquidate_each client ts

  pub liquidate_all : Call (Unit {0})
  liquidate_all = do
    trades ← get_open_trades (some strategy_id)
    client ← get_alpaca env
    liquidate_each client trades

  -- 99% of the allocation in whole shares
  abbrev open_at : Option String → ℕ → Message → Option ℕ → Call (Option ℕ)
  open_at (some ticker) allocation why (some price) = do
    raise_if (price == 0) division_by_zero
    let qty = allocation * 99 / (100 * price)
    if qty == 0 then pass none else order_shares env strategy_id ticker buy why price qty
  open_at _ allocation why _ = pass none

  pub open_position : Option String → ℕ → Message → Call (Option ℕ)
  open_position ticker allocation why = get_live_price env ticker >>= open_at ticker allocation why

  abbrev announce_opened : NasdaqState → Option String → Option ℕ → Call (Unit {0})
  announce_opened old target none = pass tt
  announce_opened old target (some id) =
      announce_transition old
        (if same_ticker target (some long_leader) then in_position else parked) (signal_text target)

  abbrev rebalance : ℕ → NasdaqState → Option String → List Trade → Call (Unit {0})
  rebalance allocation old target trades = do
    if is_empty trades then pass tt else liquidate_all
    opened ← open_position target allocation (signal_text target)
    announce_opened old target opened

  -- The bars of the scores are fetched through the client.
  pub do_signal_cycle : ℕ → List RegressionScore → Call (Unit {0})
  do_signal_cycle allocation scores = do
    (old, before) ← derive_state strategy_id risk_tickers
    client ← get_alpaca env
    let target = (evaluate_long_signal scores).target_ticker
    trades ← get_open_trades (some strategy_id)
    if same_ticker (first_ticker trades) target
        then pass tt
        else rebalance allocation old target trades

  abbrev park_if_flat : ℕ → NasdaqState → Call (Unit {0})
  park_if_flat allocation flat = do
    opened ← open_position (some park_ticker) allocation (note "post-exit auto-park in JPST")
    announce_transition flat parked (note "post-exit auto-park")
  park_if_flat allocation _ = pass tt

  abbrev after_closes : ℕ → ℕ → Call (Unit {0})
  after_closes allocation closed =
      if closed == 0
      then pass tt
      else (derive_state strategy_id risk_tickers >>= λ (state, trades).
          park_if_flat allocation state)

  pub cycle : ℕ → List RegressionScore → Call (Unit {0})
  cycle allocation scores = do
    closed ← risk_check_open_trades
    after_closes allocation closed
    if is_signal_day env then do_signal_cycle allocation scores else pass tt

  unfoldable pub main : List RegressionScore → Call ℕ
  main scores = run_main env strategy_id (λ allocation. cycle allocation scores)
