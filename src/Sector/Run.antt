-- ===== src/Sector/Run.antt =====
-- scripts/trading/strategy_sector_rotation.py: one run of strategy 8, with the bars of the broker and
-- the square root as arguments.
pub mod Lasting
use blackhole_network.Base.{
  ℕ, ◌+◌, ◌-◌, ◌*◌, String, Bool, true, false, not, ◌&&◌, ◌||◌, Option, none, some, List, [], ◌∷◌,
  keep, get, put, ltb, ◌==◌, str_eq, is_some, if◌then◌else◌,
}
use blackhole_network.Core.Types.{
  ExitReason, buy, info, manual, Message, signal_text, rotation_text, Trade,
}
use blackhole_network.Core.World.{Env, Client, Result, Order, division_by_zero}
use blackhole_network.Core.Monad.{Call, pass, raise_if, try_except, ◌>>=◌, ◌>>◌}
use blackhole_network.Core.Breakers.{send_alert}
use blackhole_network.Core.Clients.{get_alpaca}
use blackhole_network.Core.Trades.{get_open_trades, close_trade}
use blackhole_network.Core.Orders.{or_price}
use blackhole_network.Nasdaq.Risk.{
  RiskAction, keep_holding, max_hold, RiskCheckResult, profit_target_long_pct, evaluate_trade,
  close_with_alert,
}
use blackhole_network.Nasdaq.Run.{get_live_price, submit_close, order_shares, run_main}
use blackhole_network.Sector.Signal.{Scores, SectorSignal, safe_ticker, evaluate_sector_signal}
use blackhole_network.Sector.Decision.{
  decide_target, decide_weight, remainder_of, fills, shares, has_drifted,
}

-- STRATEGY_ID
abbrev pub strategy_id : String
strategy_id = "strat_8_sector_rotation"

pub data SectorState : Type 0 where
  flat in_safe in_asset : SectorState

pub record Holding : Type 0 where
  pub state : SectorState
  pub ticker : Option String
  pub trades : List Trade

-- The first of the largest: the head of the list sorted by qty * entry_price, reversed.
pub largest : Trade → List Trade → Trade
largest t [] = t
largest t (u ∷ us) =
    if ltb (t.qty * t.entry_price) (u.qty * u.entry_price) then largest u us else largest t us

abbrev is_risk : Trade → Bool
is_risk t = not (str_eq t.ticker safe_ticker)

abbrev held_of : List Trade → List Trade → Holding
held_of [] [] = record { state = flat; ticker = none; trades = [] }
held_of [] (t ∷ ts) = record { state = in_safe; ticker = none; trades = t ∷ ts }
held_of (r ∷ risk) open_trades = record {
  state = in_asset;
  ticker = some (largest r risk).ticker;
  trades = open_trades;
}

unfoldable pub holding_of : List Trade → Holding
holding_of open_trades = held_of (keep is_risk open_trades) open_trades

pub derive_state : Call Holding
derive_state = get_open_trades (some strategy_id) >>= λ open_trades. pass (holding_of open_trades)

abbrev pub same_state : SectorState → SectorState → Bool
same_state flat flat = true
same_state in_safe in_safe = true
same_state in_asset in_asset = true
same_state _ _ = false

abbrev same_ticker : Option String → Option String → Bool
same_ticker none none = true
same_ticker (some a) (some b) = str_eq a b
same_ticker _ _ = false

-- The position is left open: nothing was found, or only the age was.
abbrev passes_over : RiskAction → Bool
passes_over keep_holding = true
passes_over max_hold = true
passes_over _ = false

-- `{t["ticker"]: t for t in open_trades}`
abbrev pub by_ticker : List Trade → List (String × Trade) → List (String × Trade)
by_ticker [] d = d
by_ticker (t ∷ ts) d = by_ticker ts (put t.ticker t d)

-- Without any score the run ends here.
abbrev if_scored : Scores → Call (Unit {0}) → Call (Unit {0})
if_scored [] k = pass tt
if_scored (s ∷ ss) k = k

module _ (env : Env) where
  pub close_position : Trade → Call Bool
  close_position t = do
    price ← get_live_price env (some t.ticker)
    client ← get_alpaca env
    try_except
        (do
          order ← submit_close env client t
          closed ←
              close_trade env t.id (or_price order.filled_avg_price (or_price price t.entry_price))
                manual (some order.id)
          pass true)
        (λ e. pass false)

  abbrev open_at : String → ℕ → ℕ × ℕ → Option ℕ → Call (Option ℕ)
  open_at ticker allocation weight none = pass none
  open_at ticker allocation weight (some price) = do
    raise_if (price == 0) division_by_zero
    let qty = shares allocation weight price
    if qty == 0
        then pass none
        else order_shares env strategy_id ticker buy (signal_text (some ticker)) price qty

  -- `dollars` is the weight's share of the allocation.
  pub open_position : String → ℕ → ℕ × ℕ → Call (Option ℕ)
  open_position ticker allocation weight =
      get_live_price env (some ticker) >>= open_at ticker allocation weight

  abbrev risk_close : Trade → ℕ → RiskCheckResult → Call Bool
  risk_close t price result = do
    client ← get_alpaca env
    try_except
        (do
          order ← submit_close env client t
          closed ←
              close_with_alert env t (or_price order.filled_avg_price price) result (some order.id)
          pass true)
        (λ e. pass false)

  abbrev risk_check : Trade → Option ℕ → Call Bool
  risk_check t none = pass false
  risk_check t (some price) = do
    result ← evaluate_trade env t price profit_target_long_pct true
    if passes_over result.action then pass false else risk_close t price result

  risk_check_each : List Trade → ℕ → Call ℕ
  risk_check_each [] n = pass n
  risk_check_each (t ∷ ts) n = do
    price ← get_live_price env (some t.ticker)
    closed ← risk_check t price
    risk_check_each ts (if closed then n + 1 else n)

  pub risk_check_open_trades : Call ℕ
  risk_check_open_trades = get_open_trades (some strategy_id) >>= λ ts. risk_check_each ts 0

  abbrev kept : String → Bool → String → Bool
  kept target fill ticker = str_eq ticker target || fill && str_eq ticker safe_ticker

  -- Every position outside the target, and outside the safe asset if that is to be filled.
  pub liquidate_others : String → Bool → List Trade → Call (Unit {0})
  liquidate_others target fill [] = pass tt
  liquidate_others target fill (t ∷ ts) =
      if kept target fill t.ticker
      then liquidate_others target fill ts
      else (do closed ← close_position t; liquidate_others target fill ts)

  abbrev worth : Trade → Option ℕ → ℕ
  worth t none = 0
  worth t (some live) = t.qty * live

  -- The drift of the target; without an allocation its present weight counts as 0.
  abbrev target_drifted : ℕ → ℕ × ℕ → ℕ → Bool
  target_drifted allocation (n, d) value =
      if allocation == 0 then ltb (5 * d) (100 * n) else has_drifted allocation (n, d) value

  -- The position is closed and opened again; how the close ended is not looked at.
  abbrev pub replace : Trade → String → ℕ → ℕ × ℕ → Call (Unit {0})
  replace t ticker allocation weight = do
    closed ← close_position t
    opened ← open_position ticker allocation weight
    pass tt

  abbrev pub set_target : String → ℕ → ℕ × ℕ → Option Trade → Call (Unit {0})
  set_target target allocation weight none =
      open_position target allocation weight >>= λ opened. pass tt
  set_target target allocation weight (some t) = do
    live ← get_live_price env (some target)
    if target_drifted allocation weight (worth t live)
        then replace t target allocation weight
        else pass tt

  abbrev refill_if : Trade → ℕ → ℕ × ℕ → Option ℕ → Call (Unit {0})
  refill_if t allocation rest none = pass tt
  refill_if t allocation rest (some live) = do
    raise_if (allocation == 0) division_by_zero
    if has_drifted allocation rest (t.qty * live)
        then replace t safe_ticker allocation rest
        else pass tt

  abbrev pub set_remainder : ℕ → ℕ × ℕ → Option Trade → Call (Unit {0})
  set_remainder allocation rest none =
      open_position safe_ticker allocation rest >>= λ opened. pass tt
  set_remainder allocation rest (some t) =
      get_live_price env (some safe_ticker) >>= refill_if t allocation rest

  abbrev announce : Holding → Holding → Call (Unit {0})
  announce before after =
      if same_state before.state after.state && same_ticker before.ticker after.ticker
      then pass tt
      else try_except (send_alert info (rotation_text before.ticker after.ticker)) (λ e. pass tt)

  abbrev pub rebalance : ℕ → Holding → String → ℕ × ℕ → Call (Unit {0})
  rebalance allocation before target weight = do
    let fill = fills target weight
    liquidate_others target fill before.trades
    open_trades ← get_open_trades (some strategy_id)
    let remaining = by_ticker open_trades []
    set_target target allocation weight (get target remaining)
    if fill
        then set_remainder allocation (remainder_of weight) (get safe_ticker remaining)
        else pass tt
    after ← derive_state
    announce before after

  abbrev with_signal : ℕ → Holding → SectorSignal → Call (Unit {0})
  with_signal allocation before signal =
      let target = decide_target signal before.ticker in
      if_scored signal.scores (rebalance allocation before target (decide_weight signal target))

  module _ (sqrt : ℕ → ℕ) (bars : Client → String → ℕ → Result (List ℕ)) where
    pub do_rebalance : ℕ → Call (Unit {0})
    do_rebalance allocation = do
      before ← derive_state
      signal ← evaluate_sector_signal env sqrt bars
      with_signal allocation before signal

    pub cycle : ℕ → Call (Unit {0})
    cycle allocation = risk_check_open_trades >>= λ closed. do_rebalance allocation

    pub main : Call ℕ
    main = run_main env strategy_id cycle
