-- ===== src/Core/Json.antt =====
-- Python's `dict.get`, item assignment and truth test on JSON values, as trading_core.py uses them.
use blackhole_network.Base.{
  String, Bool, true, false, not, Option, none, some, ◌≡◌, refl, arith, str_eq, eq_iff, eq_refl,
  if◌then◌else◌,
}
use blackhole_network.Base.Int.{eqb_ℤ, pos}
use blackhole_network.Core.World.{
  Json, Fields, null, bool, num, str, arr, obj, empty, field, nil, cons,
}

-- `d.get(k)`
unfoldable pub lookup : String → Fields → Option Json
lookup k empty = none
lookup k (field j v fs) = if str_eq j k then some v else lookup k fs

-- `d[k] = v`
pub assign : String → Json → Fields → Fields
assign k v empty = field k v empty
assign k v (field j u fs) = if str_eq j k then field j v fs else field j u (assign k v fs)

abbrev pub is_empty_text : String → Bool
is_empty_text s = str_eq s ""

-- `bool(v)`
unfoldable pub truth : Json → Bool
truth null = false
truth (bool b) = b
truth (num m e) = not (eqb_ℤ m (pos 0))
truth (str s) = not (is_empty_text s)
truth (arr nil) = false
truth (arr (cons x xs)) = true
truth (obj empty) = false
truth (obj (field k v fs)) = true

pub lookup-assign :
    (k j : String) (v : Json) (fs : Fields)
    → lookup j (assign k v fs) ≡ (if str_eq k j then some v else lookup j fs)
unfolding lookup assign
lookup-assign k j v empty = refl
lookup-assign k j v (field i u fs) =
    ground (arith, eq_iff k j, eq_iff i k, eq_iff i j, lookup-assign k j v fs)

pub lookup-assign_self : (k : String) (v : Json) (fs : Fields) → lookup k (assign k v fs) ≡ some v
lookup-assign_self k v fs = simp (lookup-assign, eq_refl)

-- A dict that has just been written to is not empty.
pub assign_nonempty : (k : String) (v : Json) (fs : Fields) → truth (obj (assign k v fs)) ≡ true
unfolding assign truth
assign_nonempty k v empty = refl
assign_nonempty k v (field j u fs) = ground arith
