-- ===== src/Value/Screen.antt =====
-- scripts/trading/strategy_value.py: the answers of the FMP service, and the filter on a company. A number
-- of JSON is m / 10^e, and a comparison is multiplied out; `float` of a text counts as an error.
pub mod Filter
use blackhole_network.Base.{
  ℕ, zero, suc, ◌+◌, ◌-◌, ◌*◌, ◌^◌, String, Bool, true, false, not, ◌&&◌, ◌||◌, Option, none, some,
  List, [], ◌∷◌, length, max_of, last_value, ltb, leb, ◌==◌, if◌then◌else◌,
}
use blackhole_network.Base.Int.{ℤ, pos, negsuc, scale, abs, pos_part, ltb_ℤ}
use blackhole_network.Core.World.{Json, Fields, null, bool, num, arr, obj, nil, cons}
use blackhole_network.Core.Json.{lookup, truth}

-- m / 10^e
pub record Figure : Type 0 where
  pub m : ℤ
  pub e : ℕ

abbrev pub lt : Figure → Figure → Bool
lt a b = ltb_ℤ (scale (10 ^ b.e) a.m) (scale (10 ^ a.e) b.m)

-- One answer of the service to a request.
pub data Answer : Type 0 where
  rate_limited request_failed : Answer
  answered : Json → Answer

-- Three attempts, from attempt `k`.
pub attempts : (ℕ → Answer) → ℕ → ℕ → Option Json
attempts answer zero k = none
attempts answer (suc n) k =
    let rest = attempts answer n (suc k) in
    elim (answer k) [ answered data_ ↦ some data_ | rate_limited ↦ rest | request_failed ↦ rest ]

unfoldable pub fetched : (ℕ → Answer) → Option Json
unfolding attempts
fetched answer = attempts answer 3 0

-- `data[0] if isinstance(data, list) and data else None`, as far as it is a dict
abbrev pub first_row : Option Json → Option Fields
first_row (some (arr (cons (obj fs) rest))) = some fs
first_row _ = none

-- `a or b`
abbrev pub or_json : Option Json → Option Json → Option Json
or_json none b = b
or_json (some a) b = if truth a then some a else b

-- `float(v)`, and none where it is None or raises.
abbrev pub float_of : Option Json → Option Figure
float_of (some (num m e)) = some (record { m = m; e = e })
float_of (some (bool true)) = some (record { m = pos 1; e = 0 })
float_of (some (bool false)) = some (record { m = pos 0; e = 0 })
float_of _ = none

unfoldable pub pe_of : Fields → Option Json
pe_of fs = or_json (lookup "peRatioTTM" fs) (lookup "peRatio" fs)

unfoldable pub pb_of : Fields → Option Json
pb_of fs =
    or_json (or_json (lookup "priceToBookRatioTTM" fs) (lookup "priceBookValueRatioTTM" fs))
      (lookup "pbRatio" fs)

unfoldable pub roe_of : Fields → Option Json
roe_of fs = or_json (lookup "returnOnEquityTTM" fs) (lookup "returnOnEquity" fs)

-- ROE in percent: a fraction below 1.5 is taken times 100.
abbrev pub percent_of : Figure → Figure
percent_of d =
    if ltb (10 * abs d.m) (15 * 10 ^ d.e) then record { m = scale 100 d.m; e = d.e } else d

-- debt / equity with a positive equity
abbrev pub debt_equity : Option Figure → Option Figure → Option (Figure × Figure)
debt_equity (some debt) (some equity) = if ltb_ℤ (pos 0) equity.m then some (debt, equity) else none
debt_equity _ _ = none

unfoldable pub compute_de_ratio : Fields → Option (Figure × Figure)
compute_de_ratio bs =
    debt_equity
      (float_of (
        or_json (or_json (lookup "totalDebt" bs) (lookup "totalLongTermDebt" bs))
          (lookup "longTermDebt" bs)))
      (float_of (or_json (lookup "totalStockholdersEquity" bs) (lookup "totalEquity" bs)))

-- The thresholds of screener_filters, not negative; the first four as n / 10^e.
pub record Filters : Type 0 where
  pub pe_max : Figure
  pub pb_max : Figure
  pub de_max : Figure
  pub roe_min : Figure
  pub decline_52w_min_pct : ℕ × ℕ

-- debt / equity < limit, multiplied out by the equity
abbrev pub ratio_lt : Figure × Figure → Figure → Bool
ratio_lt (debt, equity) limit =
    ltb_ℤ (scale (10 ^ (equity.e + limit.e)) debt.m)
      (scale (10 ^ debt.e) (scale (pos_part equity.m) limit.m))

abbrev highest : List ℕ → ℕ
highest [] = 0
highest (c ∷ cs) = max_of c (highest cs)

-- (peak - current) / peak, from twenty closes on
unfoldable pub decline_of : List ℕ → Option (ℕ × ℕ)
decline_of closes =
    if ltb (length closes) 20 || highest closes == 0
    then none
    else some (highest closes - last_value closes, highest closes)

abbrev pub declined : Option (ℕ × ℕ) → ℕ × ℕ → Bool
declined none limit = false
declined (some (fall, peak)) (n, d) = leb (n * peak) (fall * d)

unfoldable pub ratios_pass : Filters → Figure → Figure → Figure → Figure × Figure → Bool
ratios_pass f pe pb roe de =
    lt pe f.pe_max && (lt pb f.pb_max && (ratio_lt de f.de_max && lt f.roe_min (percent_of roe)))
