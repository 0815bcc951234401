-- ===== src/Core/Clients/Returns.antt =====
-- Calls that never raise.
use blackhole_network.Base.{◌≡◌, refl, String, List, [], ◌∷◌, keys}
use blackhole_network.Core.World.{World, Env, Client, Result, ok, raised, Error}
use blackhole_network.Core.Monad.{Call, pass, read, answer, try_except, write, ◌>>=◌}
use blackhole_network.Core.Monad.Bind.{bind_ok}
use blackhole_network.Core.Rules.{strat_number}
use blackhole_network.Core.Clients.{visit, for_clients_in, for_clients, get_strategy_alpaca}

pub record Returns {A : Type 0} (m : Call A) : Type 0 where
  pub at : (w : World) → (a : A) × ((m w).0 ≡ ok a)

module _ {A : Type 0} where
  pub Returns-pass : (a : A) → Returns (pass a)
  Returns-pass a = record { at = λ w. (a, refl) }

  pub Returns-read : (f : World → A) → Returns (read f)
  Returns-read f = record { at = λ w. (f w, refl) }

  try-Returns :
      (h : Error → Call A) (r : Result A) (w : World)
      → ((e : Error) → Returns (h e))
      → (a : A) × (((try_except (answer r) h) w).0 ≡ ok a)
  try-Returns h (ok a) w k = (a, refl)
  try-Returns h (raised e) w k = (k e).at w

  -- What is caught does not get out.
  pub Returns-try :
      (m : Call A) (h : Error → Call A) → ((e : Error) → Returns (h e)) → Returns (try_except m h)
  Returns-try m h k = record { at = λ w. try-Returns h (m w).0 (m w).1 k }

pub Returns-write : (f : World → World) → Returns (write f)
Returns-write f = record { at = λ w. (tt, refl) }

module _ {A B : Type 0} where
  pub Returns-bind :
      (m : Call A) (f : A → Call B) → Returns m → ((a : A) → Returns (f a)) → Returns (m >>= f)
  Returns-bind m f km kf = record {
    at = λ w.
        let (a, e) = km.at w in let (b, e') = (kf a).at (m w).1 in (b, rw (bind_ok m f w e) e');
  }

pub ruleset returns_rules = (Returns-pass, Returns-read, Returns-try, Returns-write, Returns-bind)

-- The loop over the clients raises only what its body raises.
module _ {S : Type 0} (env : Env) (body : String → Client → S → Call S)
    (h : (sid : String) (c : Client) (s : S) → Returns (body sid c s)) where
  visit-Returns : (sid : String) (s : S) (r : Result Client) → Returns (visit env body sid s r)
  unfolding visit
  visit-Returns sid s (ok c) = h sid c s
  visit-Returns sid s (raised e) = Returns-pass s

  for_clients_in-Returns : (sids : List String) (s : S) → Returns (for_clients_in env body sids s)
  unfolding for_clients_in
  for_clients_in-Returns [] s = record { at = λ w. (s, refl) }
  for_clients_in-Returns (sid ∷ sids) s = record {
    at = λ w.
        let (r, w') = get_strategy_alpaca env sid w in
        (Returns-bind (visit env body sid s r) (for_clients_in env body sids)
            (visit-Returns sid s r) (for_clients_in-Returns sids)).at
          w';
  }

  pub for_clients-Returns : (s : S) → Returns (for_clients env body s)
  unfolding for_clients
  for_clients-Returns s = for_clients_in-Returns (keys strat_number) s
