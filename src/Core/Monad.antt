-- ===== src/Core/Monad.antt =====
-- Python calls as state passing: a call returns or raises, and the world is what it was left as,
-- since each statement of the source commits in its own transaction.
pub mod Keeps
pub mod Bind
use blackhole_network.Base.{Bool, Option, none, some, List, [], ◌∷◌, if◌then◌else◌}
use blackhole_network.Core.World.{World, Result, ok, raised, Error}

abbrev pub Call : Type 0 → Type 0
Call A = World → Result A × World

module _ {A : Type 0} where
  abbrev pub pass : A → Call A
  pass a w = (ok a, w)

  abbrev pub raise : Error → Call A
  raise e w = (raised e, w)

  abbrev pub read : (World → A) → Call A
  read f w = (ok (f w), w)

  -- An answer from outside, which may be an exception.
  abbrev pub answer : Result A → Call A
  answer r w = (r, w)

  abbrev pub or_raise : Option A → Error → Call A
  or_raise none e = raise e
  or_raise (some a) e = pass a

  -- `try: m` `except Exception as e: h(e)`
  abbrev pub try_except : Call A → (Error → Call A) → Call A
  try_except m h w = let (r, w') = m w in elim r [ ok a ↦ (ok a, w') | raised e ↦ h e w' ]

abbrev pub write : (World → World) → Call (Unit {0})
write f w = (ok tt, f w)

abbrev pub raise_if : Bool → Error → Call (Unit {0})
raise_if b e w = (if b then raised e else ok tt, w)

infixl 5 ◌>>=◌ ◌>>◌
abbrev pub ◌>>=◌ : {A B : Type 0} → Call A → (A → Call B) → Call B
◌>>=◌ m f w = let (r, w') = m w in elim r [ ok a ↦ f a w' | raised e ↦ (raised e, w') ]

abbrev pub ◌>>◌ : {B : Type 0} → Call (Unit {0}) → Call B → Call B
m >> k = m >>= λ _. k

-- `for x in xs: body(x)`
pub for_each : {A : Type 0} → (A → Call (Unit {0})) → List A → Call (Unit {0})
for_each body [] = pass tt
for_each body (x ∷ xs) = body x >> for_each body xs
