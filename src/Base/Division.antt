-- ===== src/Base/Division.antt =====
-- Lemmas on quotients, and on an option that is missing.
use Prim.Native.Nat.{ℕ, ◌*◌, ◌/◌, ◌≤◌, ◌<◌}
use mathlib.Core.Path.{◌≡◌, ap}
use mathlib.Core.Logic.{◌≢◌}
use mathlib.Core.Bool.{true, false}
use mathlib.Core.Option.{none, some}
use native.Mathlib.Omega.{arith}
use native.Mathlib.Nat.{div-add-mod, le_of_mul-le-mul_left}
use blackhole_network.Base.Tests.{is_some}

pub cancel : (e a b : ℕ) → 0 < e → e * a ≤ e * b → a ≤ b
cancel e a b h l = le_of_mul-le-mul_left l h

pub div-le : (n d : ℕ) → d * (n / d) ≤ n
div-le n d = let whole = div-add-mod n d in omega arith

pub none-is_not {ℓ} : {A : Type ℓ} {a : A} → none ≢ some a
none-is_not e = let b : false ≡ true = ap is_some e in absurd (ground arith)
