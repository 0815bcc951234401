-- ===== src/Core/Orders.antt =====
-- trading_core.py: `place_order`, the size of a position, and the reconciliation interval.
pub mod Sizing
pub mod Refusal
pub mod Lasting
pub mod Count
use blackhole_network.Base.{
  ℕ, ◌+◌, ◌*◌, ◌/◌, String, Bool, true, false, not, ◌&&◌, ◌||◌, Option, none, some, [], ◌∷◌, ◌++◌,
  leb, ◌==◌, if◌then◌else◌,
}
use blackhole_network.Core.Types.{Blocked, MarketPhase, market_open, open_volatile, high_vix}
use blackhole_network.Core.World.{
  Env, Client, Order, OrderRequest, submitted, refused, not_approved,
}
use blackhole_network.Core.Monad.{Call, pass, raise, answer, raise_if, write, ◌>>=◌, ◌>>◌}
use blackhole_network.Core.Lifecycle.{get_strategy_meta}
use blackhole_network.Core.Gate.{should_run}
use blackhole_network.Core.Clients.{load_env, get_strategy_alpaca}
use blackhole_network.Core.Trades.{Ticket, open_trade}

-- `x or y` on prices that may be missing
abbrev pub or_price : Option ℕ → ℕ → ℕ
or_price none d = d
or_price (some p) d = if p == 0 then d else p

-- The price that is recorded as the entry.
pub fill_price_of : Order → Option ℕ → ℕ
fill_price_of order limit_price =
    let filled = or_price order.filled_avg_price (or_price order.limit_price 0) in
    if filled == 0 then or_price limit_price 0 else filled

pub record Placed : Type 0 where
  pub order_id : String
  pub trade_id : ℕ
  pub fill_price : ℕ

abbrev refuse_if : Option Blocked → Call (Unit {0})
refuse_if none = pass tt
refuse_if (some why) = raise (refused why)

module _ (env : Env) where
  -- A submitted order is kept in `requests`, whatever is answered.
  unfoldable pub submit_order : Client → OrderRequest → Call Order
  submit_order client request = do
    write (λ w. record w { requests = w.requests ++ submitted client request ∷ [] })
    answer (env.submit_order client request)

  unfoldable pub place_order : Ticket → Bool → Option ℕ → Call Placed
  unfolding get_strategy_meta load_env submit_order
  place_order t is_limit limit_price = do
    refusal ← should_run env t.strategy_id false
    refuse_if refusal
    meta ← get_strategy_meta t.strategy_id
    (url, live) ← load_env
    raise_if (live && not meta.live_mode_approved) (not_approved t.strategy_id)
    client ← get_strategy_alpaca env t.strategy_id
    order ← submit_order client (record {
      symbol = t.ticker;
      qty = t.qty;
      side = t.side;
      limit_price = if is_limit then limit_price else none;
    })
    let price = fill_price_of order limit_price
    trade_id ← open_trade env t price (some order.id)
    pass (record { order_id = order.id; trade_id = trade_id; fill_price = price })

-- allocation / max_positions / price, rounded half up; both amounts in ten-thousandths.
unfoldable pub equal_weight_size : ℕ → ℕ → ℕ → ℕ → ℕ
equal_weight_size allocation max_positions current_open_count price =
    if leb max_positions current_open_count || price == 0
    then 0
    else (2 * allocation + max_positions * price) / (2 * (max_positions * price))

abbrev is_volatile : MarketPhase → Bool
is_volatile open_volatile = true
is_volatile high_vix = true
is_volatile _ = false

abbrev is_market_open_phase : MarketPhase → Bool
is_market_open_phase market_open = true
is_market_open_phase _ = false

unfoldable pub compute_next_interval : Bool → MarketPhase → ℕ
compute_next_interval mismatches_present phase =
    if mismatches_present
    then 10
    else if is_volatile phase
    then 30
    else if is_market_open_phase phase
    then 60
    else 300
