-- ===== src/Killswitch/Teardown/Returns.antt =====
-- master_killswitch.py: every failure of cancelling and flattening is tallied, and none gets out.
use blackhole_network.Base.{String, List, [], ◌∷◌, refl}
use blackhole_network.Core.Types.{Trade}
use blackhole_network.Core.World.{Env, Client, Order, Result, ok, raised}
use blackhole_network.Core.Clients.Returns.{
  Returns, Returns-bind, returns_rules, for_clients-Returns,
}
use blackhole_network.Killswitch.Teardown.{
  Cancelled, Flattened, cancel_one, cancel_each, cancel_listed, cancel_on, cancel_all_open_orders,
  flatten_step, flatten_each, flatten_all_positions,
}

module _ (env : Env) where
  cancel_each-Returns :
      (c : Client) (os : List Order) (acc : Cancelled) → Returns (cancel_each env c os acc)
  unfolding cancel_each
  cancel_each-Returns c [] acc = record { at = λ w. (acc, refl) }
  cancel_each-Returns c (o ∷ os) acc =
      let step : Returns (cancel_one env c o.id acc) = search returns_rules in
      record {
        at = λ w.
            (Returns-bind (cancel_one env c o.id acc) (cancel_each env c os) step
                (cancel_each-Returns c os)).at
              w;
      }

  cancel_listed-Returns :
      (l : String) (c : Client) (acc : Cancelled) (r : Result (List Order))
      → Returns (cancel_listed env l c acc r)
  unfolding cancel_listed
  cancel_listed-Returns l c acc (ok os) = cancel_each-Returns c os acc
  cancel_listed-Returns l c acc (raised e) = search returns_rules

  cancel_on-Returns : (l : String) (c : Client) (acc : Cancelled) → Returns (cancel_on env l c acc)
  unfolding cancel_on
  cancel_on-Returns l c acc = cancel_listed-Returns l c acc (env.list_orders c)

  pub cancel_all_open_orders-Returns : Returns (cancel_all_open_orders env)
  unfolding cancel_all_open_orders
  cancel_all_open_orders-Returns =
      search (returns_rules, cancel_on-Returns, for_clients-Returns) depth 9

  flatten_each-Returns : (ts : List Trade) (acc : Flattened) → Returns (flatten_each env ts acc)
  unfolding flatten_each
  flatten_each-Returns [] acc = record { at = λ w. (acc, refl) }
  flatten_each-Returns (t ∷ ts) acc =
      let step : Returns (flatten_step env t acc) = search returns_rules in
      record {
        at = λ w.
            (Returns-bind (flatten_step env t acc) (flatten_each env ts) step
                (flatten_each-Returns ts)).at
              w;
      }

  pub flatten_all_positions-Returns : Returns (flatten_all_positions env)
  unfolding flatten_all_positions
  flatten_all_positions-Returns = search (returns_rules, flatten_each-Returns) depth 9
