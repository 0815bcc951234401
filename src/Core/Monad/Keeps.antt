-- ===== src/Core/Monad/Keeps.antt =====
-- What a call leaves alone, whether it returns or raises: a relation between the world before and
-- the world after, with one rule for each way to build a call.
use blackhole_network.Base.{Bool, true, false, Option, none, some, if◌then◌else◌}
use blackhole_network.Core.World.{World, Result, ok, raised, Error}
use blackhole_network.Core.Monad.{
  Call, pass, raise, read, answer, or_raise, try_except, write, raise_if, ◌>>=◌,
}

-- A relation that every world has to itself, and that chains.
pub record IsPreorder (R : World → World → Type 0) : Type 0 where
  pub same : (w : World) → R w w
  pub trans : (u v w : World) → R u v → R v w → R u w

pub record Keeps {A : Type 0} (R : World → World → Type 0) (m : Call A) : Type 0 where
  pub at : (w : World) → R w (m w).1

module _ {R : World → World → Type 0} (o : IsPreorder R) where
  module _ {A : Type 0} where
    pub Keeps-pass : (a : A) → Keeps R (pass a)
    Keeps-pass a = record { at = λ w. o.same w }

    pub Keeps-raise : (e : Error) → Keeps R (raise {A = A} e)
    Keeps-raise e = record { at = λ w. o.same w }

    pub Keeps-read : (f : World → A) → Keeps R (read f)
    Keeps-read f = record { at = λ w. o.same w }

    pub Keeps-answer : (r : Result A) → Keeps R (answer r)
    Keeps-answer r = record { at = λ w. o.same w }

    pub Keeps-or_raise : (x : Option A) (e : Error) → Keeps R (or_raise x e)
    Keeps-or_raise none e = Keeps-raise e
    Keeps-or_raise (some a) e = Keeps-pass a

    pub Keeps-if : (b : Bool) (m n : Call A) → Keeps R m → Keeps R n → Keeps R (if b then m else n)
    Keeps-if true m n km kn = km
    Keeps-if false m n km kn = kn

  pub Keeps-raise_if : (b : Bool) (e : Error) → Keeps R (raise_if b e)
  Keeps-raise_if b e = record { at = λ w. o.same w }

  pub Keeps-write : (f : World → World) → ((w : World) → R w (f w)) → Keeps R (write f)
  Keeps-write f h = record { at = h }

  module _ {A B : Type 0} where
    bind_after :
        (f : A → Call B) (w : World) (r : Result A) (w' : World)
        → R w w'
        → ((a : A) → Keeps R (f a))
        → R w (((answer r >>= f) w').1)
    bind_after f w (ok a) w' h kf = o.trans w w' _ h ((kf a).at w')
    bind_after f w (raised e) w' h kf = h

    pub Keeps-bind :
        (m : Call A) (f : A → Call B) → Keeps R m → ((a : A) → Keeps R (f a)) → Keeps R (m >>= f)
    Keeps-bind m f km kf = record { at = λ w. bind_after f w (m w).0 (m w).1 (km.at w) kf }

  module _ {A : Type 0} where
    try_after :
        (h : Error → Call A) (w : World) (r : Result A) (w' : World)
        → R w w'
        → ((e : Error) → Keeps R (h e))
        → R w (((try_except (answer r) h) w').1)
    try_after h w (ok a) w' k kh = k
    try_after h w (raised e) w' k kh = o.trans w w' _ k ((kh e).at w')

    pub Keeps-try :
        (m : Call A) (h : Error → Call A)
        → Keeps R m
        → ((e : Error) → Keeps R (h e))
        → Keeps R (try_except m h)
    Keeps-try m h km kh = record { at = λ w. try_after h w (m w).0 (m w).1 (km.at w) kh }

pub ruleset keeps_rules = (
  Keeps-pass, Keeps-raise, Keeps-read, Keeps-answer, Keeps-or_raise, Keeps-if, Keeps-raise_if,
  Keeps-write, Keeps-bind, Keeps-try,
)
