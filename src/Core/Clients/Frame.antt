-- ===== src/Core/Clients/Frame.antt =====
-- Making a client touches no table and asks nothing of the broker that changes anything.
use blackhole_network.Base.{ℕ, keys, Bool, Option, none, some, List, [], ◌∷◌, ◌≡◌, String, arith}
use blackhole_network.Core.World.{World, Env, Client, Fields, Json, obj, Result, ok, raised}
use blackhole_network.Core.Monad.{Call}
use blackhole_network.Core.Monad.Keeps.{IsPreorder, Keeps, Keeps-bind, keeps_rules}
use blackhole_network.Core.Rules.{load_rules, get_strategy_rules, load_from, strat_number}
use blackhole_network.Core.Clients.{
  first_client, get_alpaca_from, load_env, get_alpaca, load_env_from, text_field, broker_of,
  load_strategy_env, connect, new_client, client_from, get_strategy_alpaca, visit, for_clients_in,
  for_clients,
}

-- The tables, the requests and the messages are the same.
pub record SameTables (w w' : World) : Type 0 where
  pub strategies : w'.strategies ≡ w.strategies
  pub trades : w'.trades ≡ w.trades
  pub signals : w'.signals ≡ w.signals
  pub events : w'.events ≡ w.events
  pub performance : w'.performance ≡ w.performance
  pub heartbeats : w'.heartbeats ≡ w.heartbeats
  pub rules_file : w'.rules_file ≡ w.rules_file
  pub requests : w'.requests ≡ w.requests
  pub alerts : w'.alerts ≡ w.alerts
  pub texts : w'.texts ≡ w.texts

pub SameTables-preorder : IsPreorder SameTables
SameTables-preorder = record { same = λ w. ground arith; trans = λ u v w h k. ground arith }

load_env_from-SameTables : (c : Option (String × Bool)) → Keeps SameTables (load_env_from c)
load_env_from-SameTables none = search (keeps_rules, SameTables-preorder)
load_env_from-SameTables (some c) = search (keeps_rules, SameTables-preorder)

pub load_env-SameTables : Keeps SameTables load_env
unfolding load_env
load_env-SameTables = record { at = λ w. (load_env_from-SameTables w.core_env).at w }

load_from-SameTables :
    (file : Option (Fields × ℕ)) (cached : Option Fields) → Keeps SameTables (load_from file cached)
unfolding load_from
load_from-SameTables none none = record { at = λ w. ground arith }
load_from-SameTables none (some c) = record { at = λ w. ground arith }
load_from-SameTables (some f) none = record { at = λ w. ground arith }
load_from-SameTables (some f) (some c) = record { at = λ w. ground arith }

pub load_rules-SameTables : Keeps SameTables load_rules
unfolding load_rules
load_rules-SameTables = record { at = λ w. (load_from-SameTables w.rules_file w.rules_cache).at w }

pub get_strategy_rules-SameTables : (sid : String) → Keeps SameTables (get_strategy_rules sid)
unfolding get_strategy_rules
get_strategy_rules-SameTables sid = search (keeps_rules, SameTables-preorder, load_rules-SameTables)

text_field-SameTables : (v : Option Json) → Keeps SameTables (text_field v)
text_field-SameTables none = search (keeps_rules, SameTables-preorder)
text_field-SameTables (some (Json.str s)) = search (keeps_rules, SameTables-preorder)
text_field-SameTables (some _) = search (keeps_rules, SameTables-preorder)

broker_of-SameTables : (v : Option Json) → Keeps SameTables (broker_of v)
broker_of-SameTables none = search (keeps_rules, SameTables-preorder)
broker_of-SameTables (some (obj fs)) = search (keeps_rules, SameTables-preorder)
broker_of-SameTables (some _) = search (keeps_rules, SameTables-preorder)

module _ (env : Env) where
  first_client-SameTables : (p : String × Bool) → Keeps SameTables (first_client env p)
  unfolding first_client
  first_client-SameTables (url, live) = search (keeps_rules, SameTables-preorder) depth 9

  get_alpaca_from-SameTables : (c : Option Client) → Keeps SameTables (get_alpaca_from env c)
  unfolding get_alpaca_from
  get_alpaca_from-SameTables none =
      search (keeps_rules, SameTables-preorder, load_env-SameTables, first_client-SameTables) depth
        9
  get_alpaca_from-SameTables (some c) = search (keeps_rules, SameTables-preorder)

  pub get_alpaca-SameTables : Keeps SameTables (get_alpaca env)
  unfolding get_alpaca
  get_alpaca-SameTables = record { at = λ w. (get_alpaca_from-SameTables w.default_client).at w }

  load_strategy_env-SameTables : (sid : String) → Keeps SameTables (load_strategy_env env sid)
  unfolding load_strategy_env
  load_strategy_env-SameTables sid = record { at = λ w. ground arith }

  connect-SameTables :
      (sid : String) (k s u : Option String) → Keeps SameTables (connect env sid k s u)
  unfolding connect
  connect-SameTables sid k s none = search (keeps_rules, SameTables-preorder)
  connect-SameTables sid k s (some u) =
      search (keeps_rules, SameTables-preorder, load_strategy_env-SameTables) depth 20

  new_client-SameTables : (sid : String) → Keeps SameTables (new_client env sid)
  unfolding new_client
  new_client-SameTables sid =
      search
        (
          keeps_rules, SameTables-preorder, get_strategy_rules-SameTables, broker_of-SameTables,
          text_field-SameTables, connect-SameTables,
        )
        depth 12

  client_from-SameTables :
      (sid : String) (c : Option Client) → Keeps SameTables (client_from env sid c)
  unfolding client_from
  client_from-SameTables sid none = new_client-SameTables sid
  client_from-SameTables sid (some c) = search (keeps_rules, SameTables-preorder)

  pub get_strategy_alpaca-SameTables :
      (sid : String) → Keeps SameTables (get_strategy_alpaca env sid)
  unfolding get_strategy_alpaca
  get_strategy_alpaca-SameTables sid = record { at = λ w. (client_from-SameTables sid _).at w }

-- A loop over the clients keeps what its body keeps, if making a client keeps it too.
module _ {R : World → World → Type 0} (o : IsPreorder R) (env : Env) where
  module _ {S : Type 0} (body : String → Client → S → Call S) where
    for_clients_in-Keeps :
        ((sid : String) → Keeps R (get_strategy_alpaca env sid))
        → ((sid : String) (c : Client) (s : S) → Keeps R (body sid c s))
        → (sids : List String) (s : S) → Keeps R (for_clients_in env body sids s)
    unfolding for_clients_in
    for_clients_in-Keeps kc kb [] s = record { at = λ w. o.same w }
    for_clients_in-Keeps kc kb (sid ∷ sids) s = record {
      at = λ w.
          let (r, w') = get_strategy_alpaca env sid w in
          o.trans w w' _ ((kc sid).at w) (
            (Keeps-bind o (visit env body sid s r) (for_clients_in env body sids)
                (visit-Keeps sid s kb r) (for_clients_in-Keeps kc kb sids)).at
              w');
    }
      where
        visit-Keeps :
            (sid : String) (s : S)
            → ((sid : String) (c : Client) (s : S) → Keeps R (body sid c s))
            → (r : Result Client) → Keeps R (visit env body sid s r)
        visit-Keeps sid s kb (ok c) = kb sid c s
        visit-Keeps sid s kb (raised e) = record { at = λ w. o.same w }

    pub for_clients-Keeps :
        ((sid : String) → Keeps R (get_strategy_alpaca env sid))
        → ((sid : String) (c : Client) (s : S) → Keeps R (body sid c s))
        → (s : S) → Keeps R (for_clients env body s)
    unfolding for_clients
    for_clients-Keeps kc kb s = for_clients_in-Keeps kc kb (keys strat_number) s
