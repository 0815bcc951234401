-- ===== src/Nasdaq/Run.antt =====
-- What strategy_nasdaq_long.py and strategy_nasdaq_short.py of scripts/trading/ both do: the prices, the
-- closing orders, the order for a signal, and `main` around the cycle of the strategy.
pub mod Errors
pub mod Lasting
use blackhole_network.Base.{
  ℕ, ◌+◌, ◌-◌, ◌*◌, ◌/◌, ◌%◌, String, Bool, true, false, not, ◌&&◌, Option, none, some, List, [],
  ◌∷◌, map, ltb, ◌==◌, str_eq, if◌then◌else◌,
}
use blackhole_network.Core.Types.{
  Action, buy, sell, error, info, manual, Message, note, signal_text, transition_text, Blocked,
  Signal, Trade,
}
use blackhole_network.Core.World.{Env, Client, Order, Error, type_error, division_by_zero}
use blackhole_network.Core.Monad.{
  Call, pass, raise, answer, raise_if, write, try_except, ◌>>=◌, ◌>>◌,
}
use blackhole_network.Core.Lifecycle.{get_strategy_meta, update_strategy_status}
use blackhole_network.Core.Breakers.{send_alert}
use blackhole_network.Core.Gate.{should_run}
use blackhole_network.Core.Clients.{get_alpaca}
use blackhole_network.Core.Trades.{Ticket, log_signal, get_open_trades, close_trade, is_buy}
use blackhole_network.Core.Orders.{Placed, or_price, submit_order, place_order}
use blackhole_network.Nasdaq.Risk.{
  RiskAction, keep_holding, RiskCheckResult, profit_target_long_pct, evaluate_trade,
  close_with_alert,
}

-- The weekday of the day in UTC is Monday; the epoch was a Thursday.
abbrev pub is_signal_day : Env → Bool
is_signal_day env = (env.now / 86400 + 3) % 7 == 0

abbrev pub opposite : Action → Action
opposite side = if is_buy side then sell else buy

abbrev pub holds_on : RiskAction → Bool
holds_on keep_holding = true
holds_on _ = false

-- `UPDATE signals_log SET acted_on=false WHERE id = …`
abbrev pub unacted : ℕ → Signal → Signal
unacted id s = if s.id == id then record s { acted_on = false } else s

module _ (env : Env) where
  -- The client takes the text of a symbol.
  abbrev latest_price : Client → Option String → Call (Option ℕ)
  latest_price client none = raise type_error
  latest_price client (some ticker) = do
    price ← answer (env.latest_trade client ticker)
    pass (some price)

  pub get_live_price : Option String → Call (Option ℕ)
  get_live_price ticker =
      try_except (get_alpaca env >>= λ client. latest_price client ticker) (λ e. pass none)

  pub submit_close : Client → Trade → Call Order
  submit_close client t =
      submit_order env client
        (record { symbol = t.ticker; qty = t.qty; side = opposite t.side; limit_price = none })

  module _ (sid : String) where
    abbrev pub ticket : String → Action → ℕ → ℕ → ℕ → Ticket
    ticket ticker side qty signal_id price = record {
      strategy_id = sid;
      ticker = ticker;
      side = side;
      qty = qty;
      signal_id = some signal_id;
      stop_level = none;
      target_level = none;
      water_mark = some price;
    }

    -- The signal, and the order for it.
    pub order_shares : String → Action → Message → ℕ → ℕ → Call (Option ℕ)
    order_shares ticker side why price qty = do
      signal_id ← log_signal sid ticker side why true
      try_except
          (place_order env (ticket ticker side qty signal_id price) false none >>= λ placed.
            pass (some placed.trade_id))
          (λ e. do write (λ w. record w { signals = map (unacted signal_id) w.signals }); pass none)

    module _ (cycle : ℕ → Call (Unit {0})) where
      -- The exit code: an exception of the cycle leaves the strategy in error.
      abbrev pub guarded : ℕ → Call ℕ
      guarded allocation = try_except (cycle allocation >> pass 0) (λ e. do
        update_strategy_status sid error (note "exception in main loop (see log)")
        pass 1)

      abbrev pub funded : ℕ → Call ℕ
      funded allocation = if allocation == 0 then pass 1 else guarded allocation

      abbrev pub gated : Option Blocked → Call ℕ
      gated (some why) = pass 0
      gated none = get_strategy_meta sid >>= λ meta. funded meta.capital_allocation

      unfoldable pub run_main : Call ℕ
      run_main = should_run env sid false >>= gated
