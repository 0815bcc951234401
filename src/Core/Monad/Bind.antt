-- ===== src/Core/Monad/Bind.antt =====
-- A sequence of calls, stepped by what its first call returns.
use blackhole_network.Base.{◌≡◌, refl, ap}
use blackhole_network.Core.World.{World, Result, ok, raised, Error}
use blackhole_network.Core.Monad.{Call, answer, ◌>>=◌}

module _ {A B : Type 0} (m : Call A) (f : A → Call B) (w : World) where
  pub bind_ok : {a : A} → (m w).0 ≡ ok a → (m >>= f) w ≡ f a (m w).1
  bind_ok e = ap (λ r. (answer r >>= f) (m w).1) e

  pub bind_eq : {a : A} {w' : World} → m w ≡ (ok a, w') → (m >>= f) w ≡ f a w'
  bind_eq e = ap (λ p. (answer p.0 >>= f) p.1) e

  pub bind_raised : {e : Error} → (m w).0 ≡ raised e → (m >>= f) w ≡ (raised e, (m w).1)
  bind_raised h = ap (λ r. (answer r >>= f) (m w).1) h

-- A sequence that returns: its first call did, and the rest returns from there.
pub bind-eq-ok :
    {A B : Type 0} (m : Call A) (f : A → Call B) (w : World) {b : B}
    → ((m >>= f) w).0 ≡ ok b
    → (a : A) × ((m w).0 ≡ ok a) × ((f a (m w).1).0 ≡ ok b)
bind-eq-ok {A} m f w {b} h = go (m w).0 (m w).1 refl h
  where
    go :
        (r : Result A) (w' : World)
        → (m w).0 ≡ r
        → ((answer r >>= f) w').0 ≡ ok b
        → (a : A) × ((m w).0 ≡ ok a) × ((f a w').0 ≡ ok b)
    go (ok a) w' e h = (a, e, h)
    go (raised x) w' e h = absurd (cc h)
