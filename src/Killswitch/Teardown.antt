-- ===== src/Killswitch/Teardown.antt =====
-- master_killswitch.py: the SMS, cancelling every open order, flattening every position.
pub mod Keeps
pub mod Tally
pub mod Returns
use blackhole_network.Base.{
  ℕ, zero, suc, String, Bool, true, false, ◌&&◌, Option, none, some, List, [], ◌∷◌, ◌++◌, get, keep,
  ◌==◌, if◌then◌else◌,
}
use blackhole_network.Core.Types.{sell, system_halt, Message, Trade}
use blackhole_network.Core.World.{
  Env, Result, ok, raised, no_strategy_client, Client, Order, cancelled,
}
use blackhole_network.Core.Monad.{Call, pass, raise, read, answer, write, try_except, ◌>>=◌, ◌>>◌}
use blackhole_network.Core.Clients.{get_alpaca, get_strategy_alpaca, for_clients, is_set}
use blackhole_network.Core.Trades.{Closed, close_trade, is_open}
use blackhole_network.Core.Orders.{submit_order}

abbrev pub twilio_ready : List (String × String) → Bool
twilio_ready vars =
    is_set (get "TWILIO_ACCOUNT_SID" vars)
    && (is_set (get "TWILIO_AUTH_TOKEN" vars)
        && (is_set (get "TWILIO_FROM_NUMBER" vars) && is_set (get "TWILIO_OPERATOR_NUMBER" vars)))

-- The orders cancelled and the failures, each by its id or its label.
pub record Cancelled : Type 0 where
  pub orders : List String
  pub failed : List String

-- A position that was closed, and the trades that were not.
pub record Flattened : Type 0 where
  pub closed_trades : List Closed
  pub failed_trades : List ℕ

module _ (env : Env) where
  -- True if Twilio accepts the message; a missing variable or a refusal is only logged.
  unfoldable pub send_sms : Message → Call Bool
  send_sms message w =
      if twilio_ready w.environ
      then (ok env.sms_accepted, record w { texts = w.texts ++ message ∷ [] })
      else (ok false, w)

  -- `client.cancel_order(order.id)`, kept in `requests`
  unfoldable pub cancel_order : Client → String → Call (Unit {0})
  cancel_order client id = do
    write (λ w. record w { requests = w.requests ++ cancelled client id ∷ [] })
    answer (env.cancel_order client id)

  abbrev cancel_one : Client → String → Cancelled → Call Cancelled
  cancel_one client id acc =
      try_except (cancel_order client id >> pass (record acc { orders = acc.orders ++ id ∷ [] }))
        (λ e. pass (record acc { failed = acc.failed ++ id ∷ [] }))

  unfoldable pub cancel_each : Client → List Order → Cancelled → Call Cancelled
  unfolding cancel_order
  cancel_each client [] acc w = (ok acc, w)
  cancel_each client (o ∷ os) acc w = (cancel_one client o.id acc >>= cancel_each client os) w

  cancel_listed : String → Client → Cancelled → Result (List Order) → Call Cancelled
  unfolding cancel_each
  cancel_listed label client acc (raised e) =
      pass (record acc { failed = acc.failed ++ label ∷ [] })
  cancel_listed label client acc (ok open_orders) = cancel_each client open_orders acc

  -- `_cancel_on`
  unfoldable pub cancel_on : String → Client → Cancelled → Call Cancelled
  unfolding cancel_listed
  cancel_on label client acc = cancel_listed label client acc (env.list_orders client)

  unfoldable pub cancel_all_open_orders : Call Cancelled
  unfolding cancel_on
  cancel_all_open_orders = do
    let start : Cancelled = record { orders = []; failed = [] }
    first ←
        try_except (get_alpaca env >>= λ client. cancel_on "default" client start)
          (λ e. pass (record start { failed = "client[default]" ∷ [] }))
    for_clients env cancel_on first

  -- The fill that five polls see, if any does; `k` polls are left.
  pub poll_fill : Client → String → ℕ → Call (Option ℕ)
  poll_fill client id zero w = (ok none, w)
  poll_fill client id (suc k) w = elim (env.get_order client id k) [
    | raised e ↦ (raised e, w)
    | ok order ↦ elim order.filled_avg_price [
      | none ↦ poll_fill client id k w
      | some p ↦ elim (p == 0) [ true ↦ poll_fill client id k w | false ↦ (ok (some p), w) ]
    ]
  ]

  abbrev price_of : Client → String → Option ℕ → Call ℕ
  price_of client ticker (some p) = pass p
  price_of client ticker none = answer (env.latest_trade client ticker)

  -- The body of the `try`: sell on the strategy's own account, and close the row.
  unfoldable pub flatten_one : Trade → Call Closed
  unfolding poll_fill submit_order
  flatten_one t = do
    client ←
        try_except (get_strategy_alpaca env t.strategy_id)
          (λ e. raise (no_strategy_client t.strategy_id))
    order ←
        submit_order env client
          (record { symbol = t.ticker; qty = t.qty; side = sell; limit_price = none })
    fill ← poll_fill client order.id 5
    price ← price_of client t.ticker fill
    close_trade env t.id price system_halt (some order.id)

  abbrev flatten_step : Trade → Flattened → Call Flattened
  flatten_step t acc =
      try_except
        (flatten_one t >>= λ c. pass (record acc { closed_trades = acc.closed_trades ++ c ∷ [] }))
        (λ e. pass (record acc { failed_trades = acc.failed_trades ++ t.id ∷ [] }))

  unfoldable pub flatten_each : List Trade → Flattened → Call Flattened
  flatten_each [] acc w = (ok acc, w)
  flatten_each (t ∷ ts) acc w = (flatten_step t acc >>= flatten_each ts) w

  unfoldable pub flatten_all_positions : Call Flattened
  unfolding flatten_each
  flatten_all_positions = do
    rows ← read (λ w. keep is_open w.trades)
    flatten_each rows (record { closed_trades = []; failed_trades = [] })
