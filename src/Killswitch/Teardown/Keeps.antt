-- ===== src/Killswitch/Teardown/Keeps.antt =====
-- master_killswitch.py: cancelling and flattening leave trading_strategies and the alerts alone.
use blackhole_network.Base.{ℕ, zero, suc, String, Option, none, some, List, [], ◌∷◌, ◌≡◌, arith}
use blackhole_network.Core.Types.{Trade, ExitReason}
use blackhole_network.Core.World.{
  World, Env, Client, Order, OrderRequest, Result, ok, raised, unknown_trade,
}
use blackhole_network.Core.Monad.Keeps.{IsPreorder, Keeps, Keeps-bind, Keeps-or_raise, keeps_rules}
use blackhole_network.Core.Clients.Frame.{
  SameTables, for_clients-Keeps, get_alpaca-SameTables, get_strategy_alpaca-SameTables,
}
use blackhole_network.Core.Clients.{get_alpaca, get_strategy_alpaca}
use blackhole_network.Core.Trades.{find_trade, close_trade, close_row}
use blackhole_network.Core.Orders.{submit_order}
use blackhole_network.Killswitch.Teardown.{
  Cancelled, Flattened, cancel_one, flatten_step, cancel_order, cancel_each, cancel_listed,
  cancel_on, cancel_all_open_orders, poll_fill, price_of, flatten_one, flatten_each,
  flatten_all_positions,
}

-- The strategies and the messages to the operator are the same.
pub record SameStatus (w w' : World) : Type 0 where
  pub strategies : w'.strategies ≡ w.strategies
  pub texts : w'.texts ≡ w.texts
  pub events : w'.events ≡ w.events

pub SameStatus-preorder : IsPreorder SameStatus
SameStatus-preorder = record { same = λ w. ground arith; trans = λ u v w h k. ground arith }

weaken : {A : Type 0} (m : World → Result A × World) → Keeps SameTables m → Keeps SameStatus m
weaken m k = record {
  at = λ w. record {
    strategies = (k.at w).strategies;
    texts = (k.at w).texts;
    events = (k.at w).events;
  };
}

module _ (env : Env) where
  pub get_alpaca-SameStatus : Keeps SameStatus (get_alpaca env)
  get_alpaca-SameStatus = weaken (get_alpaca env) (get_alpaca-SameTables env)

  pub get_strategy_alpaca-SameStatus :
      (sid : String) → Keeps SameStatus (get_strategy_alpaca env sid)
  get_strategy_alpaca-SameStatus sid =
      weaken (get_strategy_alpaca env sid) (get_strategy_alpaca-SameTables env sid)

  cancel_order-SameStatus : (c : Client) (id : String) → Keeps SameStatus (cancel_order env c id)
  unfolding cancel_order
  cancel_order-SameStatus c id = record { at = λ w. ground arith }

  submit_order-SameStatus :
      (c : Client) (r : OrderRequest) → Keeps SameStatus (submit_order env c r)
  unfolding submit_order
  submit_order-SameStatus c r = record { at = λ w. ground arith }

  close_row-SameStatus :
      (id exit : ℕ) (why : ExitReason) (order : Option String) (t : Trade)
      → Keeps SameStatus (close_row env id exit why order t)
  unfolding close_row
  close_row-SameStatus id exit why order t = record { at = λ w. ground arith }

  close_trade-SameStatus :
      (id exit : ℕ) (why : ExitReason) (order : Option String)
      → Keeps SameStatus (close_trade env id exit why order)
  unfolding close_trade
  close_trade-SameStatus id exit why order = record {
    at = λ w.
        (Keeps-bind SameStatus-preorder _ (close_row env id exit why order)
            (Keeps-or_raise SameStatus-preorder (find_trade id w.trades) (unknown_trade id))
            (close_row-SameStatus id exit why order)).at
          w;
  }

  cancel_each-SameStatus :
      (c : Client) (os : List Order) (acc : Cancelled) → Keeps SameStatus (cancel_each env c os acc)
  unfolding cancel_each
  cancel_each-SameStatus c [] acc = record { at = λ w. SameStatus-preorder.same w }
  cancel_each-SameStatus c (o ∷ os) acc =
      let step : Keeps SameStatus (cancel_one env c o.id acc) =
        search (keeps_rules, SameStatus-preorder, cancel_order-SameStatus) depth 9 in
      record {
        at = λ w.
            (Keeps-bind SameStatus-preorder (cancel_one env c o.id acc) (cancel_each env c os) step
                (cancel_each-SameStatus c os)).at
              w;
      }

  cancel_listed-SameStatus :
      (l : String) (c : Client) (acc : Cancelled) (r : Result (List Order))
      → Keeps SameStatus (cancel_listed env l c acc r)
  unfolding cancel_listed
  cancel_listed-SameStatus l c acc (ok os) = cancel_each-SameStatus c os acc
  cancel_listed-SameStatus l c acc (raised e) = record { at = λ w. SameStatus-preorder.same w }

  cancel_on-SameStatus :
      (l : String) (c : Client) (acc : Cancelled) → Keeps SameStatus (cancel_on env l c acc)
  unfolding cancel_on
  cancel_on-SameStatus l c acc = cancel_listed-SameStatus l c acc (env.list_orders c)

  pub cancel_all_open_orders-SameStatus : Keeps SameStatus (cancel_all_open_orders env)
  unfolding cancel_all_open_orders
  cancel_all_open_orders-SameStatus =
      search
        (
          keeps_rules, SameStatus-preorder, get_alpaca-SameStatus, cancel_on-SameStatus,
          for_clients-Keeps, get_strategy_alpaca-SameStatus,
        )
        depth 12

  poll_fill-SameStatus :
      (c : Client) (id : String) (k : ℕ) → Keeps SameStatus (poll_fill env c id k)
  unfolding poll_fill
  poll_fill-SameStatus c id zero = record { at = λ w. ground arith }
  poll_fill-SameStatus c id (suc k) =
      let ih = poll_fill-SameStatus c id k in record { at = λ w. let h = ih.at w in ground arith }

  price_of-SameStatus :
      (c : Client) (t : String) (p : Option ℕ) → Keeps SameStatus (price_of env c t p)
  price_of-SameStatus c t none = search (keeps_rules, SameStatus-preorder)
  price_of-SameStatus c t (some p) = search (keeps_rules, SameStatus-preorder)

  flatten_one-SameStatus : (t : Trade) → Keeps SameStatus (flatten_one env t)
  unfolding flatten_one
  flatten_one-SameStatus t =
      search
        (
          keeps_rules, SameStatus-preorder, get_strategy_alpaca-SameStatus, submit_order-SameStatus,
          poll_fill-SameStatus, price_of-SameStatus, close_trade-SameStatus,
        )
        depth 15

  flatten_each-SameStatus :
      (ts : List Trade) (acc : Flattened) → Keeps SameStatus (flatten_each env ts acc)
  unfolding flatten_each
  flatten_each-SameStatus [] acc = record { at = λ w. SameStatus-preorder.same w }
  flatten_each-SameStatus (t ∷ ts) acc =
      let step : Keeps SameStatus (flatten_step env t acc) =
        search (keeps_rules, SameStatus-preorder, flatten_one-SameStatus) depth 9 in
      record {
        at = λ w.
            (Keeps-bind SameStatus-preorder (flatten_step env t acc) (flatten_each env ts) step
                (flatten_each-SameStatus ts)).at
              w;
      }

  pub flatten_all_positions-SameStatus : Keeps SameStatus (flatten_all_positions env)
  unfolding flatten_all_positions
  flatten_all_positions-SameStatus =
      search (keeps_rules, SameStatus-preorder, flatten_each-SameStatus) depth 9
