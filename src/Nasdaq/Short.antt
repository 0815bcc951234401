-- ===== src/Nasdaq/Short.antt =====
-- scripts/trading/strategy_nasdaq_short.py: one run of strategy 7. The scores and the state of SPY are
-- arguments: the regression and the download of the bars are not modelled.
pub mod Exits
pub mod Lasting
use blackhole_network.Base.{
  ℕ, ◌+◌, ◌*◌, ◌/◌, ◌^◌, String, Bool, true, false, not, ◌&&◌, ◌||◌, Option, none, some, List, [],
  ◌∷◌, any, elem, leb, ◌==◌, str_eq, is_some, if◌then◌else◌,
}
use blackhole_network.Base.Int.{ℤ, pos, negsuc}
use blackhole_network.Core.Types.{
  Action, buy, sell, info, manual, Message, note, signal_text, legs_text, Trade,
}
use blackhole_network.Core.World.{
  Env, Client, Json, num, obj, Fields, empty, type_error, division_by_zero,
}
use blackhole_network.Core.Monad.{Call, pass, raise, raise_if, try_except, ◌>>=◌, ◌>>◌}
use blackhole_network.Core.Json.{lookup, truth}
use blackhole_network.Core.Rules.{get_strategy_rules}
use blackhole_network.Core.Breakers.{send_alert}
use blackhole_network.Core.Clients.{get_alpaca}
use blackhole_network.Core.Trades.{get_open_trades, close_trade}
use blackhole_network.Core.Orders.{or_price}
use blackhole_network.Nasdaq.Risk.{
  RiskCheckResult, profit_target_short_pct, evaluate_trade, close_with_alert,
}
use blackhole_network.Nasdaq.Run.{
  is_signal_day, holds_on, get_live_price, submit_close, order_shares, run_main,
}
use blackhole_network.Nasdaq.Signal.{
  RegressionScore, SpyState, NasdaqSignal, long_leader, park_ticker, evaluate_short_signal,
}

-- STRATEGY_ID
abbrev pub strategy_id : String
strategy_id = "strat_7_nasdaq_short"

-- SHORT_LEG_TICKERS
abbrev pub short_leg_tickers : List String
short_leg_tickers = "QQQ" ∷ "SPY" ∷ []

-- SPY_RECLAIM_STREAK_REQUIRED
abbrev pub spy_reclaim_streak_required : ℕ
spy_reclaim_streak_required = 3

-- Strat7State
pub data ShortState : Type 0 where
  neutral in_short : ShortState

abbrev is_sell : Action → Bool
is_sell sell = true
is_sell _ = false

abbrev is_short_leg : Trade → Bool
is_short_leg t = elem t.ticker short_leg_tickers && is_sell t.side

abbrev pub short_state_of : List Trade → ShortState
short_state_of trades = if any is_short_leg trades then in_short else neutral

pub derive_short_state : Call ShortState
derive_short_state = get_open_trades (some strategy_id) >>= λ trades. pass (short_state_of trades)

-- E1
pub spy_reclaimed_for_streak : Option SpyState → ℕ → Bool
spy_reclaimed_for_streak none required = false
spy_reclaimed_for_streak (some spy) required =
    leb required spy.max_above_streak_recent && spy.above_ma

-- E2
pub qld_wins_again : List RegressionScore → Bool
qld_wins_again [] = false
qld_wins_again (s ∷ ss) = str_eq s.ticker long_leader

abbrev fields_or_empty : Option Json → Fields
fields_or_empty (some (obj fs)) = fs
fields_or_empty _ = empty

-- A number m / 10^e of the file, not negative; anything else raises.
abbrev fraction_of : Option Json → ℕ × ℕ → Call (ℕ × ℕ)
fraction_of none default = pass default
fraction_of (some (num (pos m) e)) default = pass (m, e)
fraction_of (some _) default = raise type_error

module _ (env : Env) where
  abbrev risk_close : Trade → ℕ → RiskCheckResult → Client → Call Bool
  risk_close t price result client =
      try_except
        (do
          order ← submit_close env client t
          closed ←
              close_with_alert env t (or_price order.filled_avg_price price) result (some order.id)
          pass true)
        (λ e. pass false)

  abbrev risk_check : Client → Trade → Option ℕ → Call Bool
  risk_check client t none = pass false
  risk_check client t (some price) = do
    result ← evaluate_trade env t price profit_target_short_pct true
    if holds_on result.action then pass false else risk_close t price result client

  -- The sleeve of JPST is passed over.
  risk_check_each : Client → List Trade → ℕ → Call ℕ
  risk_check_each client [] n = pass n
  risk_check_each client (t ∷ ts) n =
      if str_eq t.ticker park_ticker then risk_check_each client ts n else (do
        price ← get_live_price env (some t.ticker)
        closed ← risk_check client t price
        risk_check_each client ts (if closed then n + 1 else n))

  abbrev risk_check_held : List Trade → Call ℕ
  risk_check_held [] = pass 0
  risk_check_held (t ∷ ts) = get_alpaca env >>= λ client. risk_check_each client (t ∷ ts) 0

  pub risk_check_open_trades : Call ℕ
  risk_check_open_trades = get_open_trades (some strategy_id) >>= risk_check_held

  abbrev close_leg : Client → Trade → ℕ → Call Bool
  close_leg client t price =
      try_except
        (do
          order ← submit_close env client t
          closed ←
              close_trade env t.id (or_price order.filled_avg_price price) manual (some order.id)
          pass true)
        (λ e. pass false)

  close_each : Client → List Trade → ℕ → Call ℕ
  close_each client [] n = pass n
  close_each client (t ∷ ts) n = do
    price ← get_live_price env (some t.ticker)
    closed ← close_leg client t (or_price price t.entry_price)
    close_each client ts (if closed then n + 1 else n)

  abbrev close_held : Message → List Trade → Call ℕ
  close_held why [] = pass 0
  close_held why (t ∷ ts) = do
    client ← get_alpaca env
    closed ← close_each client (t ∷ ts) 0
    if closed == 0 then pass tt else send_alert info (legs_text closed why)
    pass closed

  pub close_all_shorts : Message → Call ℕ
  close_all_shorts why = get_open_trades (some strategy_id) >>= close_held why

  -- `dollars` is a fraction m / 10^e of the allocation.
  abbrev open_at : String → Action → ℕ → ℕ × ℕ → Message → Option ℕ → Call (Option ℕ)
  open_at ticker side allocation share why none = pass none
  open_at ticker side allocation (m, e) why (some price) = do
    raise_if (price == 0) division_by_zero
    let qty = allocation * m / (10 ^ e * price)
    if qty == 0 then pass none else order_shares env strategy_id ticker side why price qty

  pub open_leg : String → Action → ℕ → ℕ × ℕ → Message → Call (Option ℕ)
  open_leg ticker side allocation share why =
      get_live_price env (some ticker) >>= open_at ticker side allocation share why

  abbrev one_if : Option ℕ → ℕ
  one_if none = 0
  one_if (some id) = 1

  -- The three legs: QQQ and SPY sold, JPST bought.
  pub enter_short_position : ℕ → Message → Call ℕ
  enter_short_position allocation why = do
    block ← get_strategy_rules strategy_id
    let split = fields_or_empty (lookup "position_split" block)
    qqq ← fraction_of (lookup "short_qqq_pct" split) (3, 1)
    spy ← fraction_of (lookup "short_spy_pct" split) (2, 1)
    jpst ← fraction_of (lookup "jpst_pct" split) (5, 1)
    a ← open_leg "QQQ" sell allocation qqq why
    b ← open_leg "SPY" sell allocation spy why
    c ← open_leg park_ticker buy allocation jpst why
    let opened = one_if a + one_if b + one_if c
    if opened == 0 then pass tt else send_alert info (legs_text opened why)
    pass opened

  abbrev exit_if : List RegressionScore → Option SpyState → ShortState → Call ℕ
  exit_if scores spy neutral = pass 0
  exit_if scores spy in_short =
      if spy_reclaimed_for_streak spy spy_reclaim_streak_required
      then close_all_shorts (note "E1: SPY reclaimed 200MA")
      else if qld_wins_again scores
      then close_all_shorts (note "E2: QLD reclaimed #1 rank")
      else pass 0

  abbrev enter_if : ℕ → NasdaqSignal → ShortState → Call ℕ
  enter_if allocation signal in_short = pass 0
  enter_if allocation signal neutral =
      if signal.fires
      then enter_short_position allocation (signal_text signal.target_ticker)
      else pass 0

  abbrev signal_cycle : List RegressionScore → Option SpyState → ℕ → Call (Unit {0})
  signal_cycle scores spy allocation = do
    client ← get_alpaca env
    now ← derive_short_state
    closed ← exit_if scores spy now
    after ← derive_short_state
    opened ← enter_if allocation (evaluate_short_signal scores spy) after
    pass tt

  pub cycle : List RegressionScore → Option SpyState → ℕ → Call (Unit {0})
  cycle scores spy allocation = do
    before ← derive_short_state
    closed ← risk_check_open_trades
    if is_signal_day env then signal_cycle scores spy allocation else pass tt

  unfoldable pub main : List RegressionScore → Option SpyState → Call ℕ
  main scores spy = run_main env strategy_id (cycle scores spy)
