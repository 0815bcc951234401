-- ===== src/Prediction/Ticker/Valid.antt =====
-- prediction_signal.py: what a ticker that parses says.
use mathlib.Core.Path.{subst}
use blackhole_network.Base.{
  none-is_not, ℕ, ◌+◌, ◌%◌, ◌≤◌, ◌≢◌, All, String, Bool, true, false, ◌&&◌, Option, none, some,
  List, [], ◌∷◌, map, ◌≡◌, refl, sym, ap, ◌∙◌, arith, leb, ◌==◌, Bool-cases, Option-cases, ◌⊎◌, inl,
  inr, codes, upper, same_codes, if◌then◌else◌,
}
use blackhole_network.Prediction.Types.{Op, above, between, Decimal, Metadata}
use blackhole_network.Prediction.Ticker.{
  is_digit, is_letter, at_end, two_digits, Series, Strike, series_to_station_var, find_series,
  strip_m, stripped, known_series, find_month, month_map, days_in_month, make_date, date_number,
  dated, parse_date_part, ranged, after_low, after_threshold, read_number, parse_strike, assembled,
  parse_parts, parse_kalshi_weather_ticker, split_dash, join_dash,
}

abbrev pub Within : List Series → Series → Type 0
Within [] s = ⊥
Within (x ∷ xs) s = (s ≡ x) ⊎ Within xs s

abbrev FromTable : Series → Type 0
FromTable s = Within series_to_station_var s

-- The day is one of the month: at most 31, 30 in the short months, 29 in February, and 28 there where 4
-- does not divide the year.
abbrev pub IsInMonth : ℕ → ℕ → ℕ → Type 0
IsInMonth year month day =
    (1 ≤ day)
    × (day ≤ 31)
    × ((month ≡ 4) ⊎ ((month ≡ 6) ⊎ ((month ≡ 9) ⊎ (month ≡ 11))) → day ≤ 30)
    × (month ≡ 2 → day ≤ 29)
    × (month ≡ 2 → year % 4 ≢ 0 → day ≤ 28)

abbrev pub IsDate : ℕ → Type 0
IsDate d =
    (year : ℕ) × (month : ℕ) × (day : ℕ) × (2000 ≤ year)
    × (year ≤ 2099)
    × (1 ≤ month)
    × (month ≤ 12)
    × IsInMonth year month day
    × (d ≡ date_number year month day)

abbrev pub IsStrike : Op → Option Decimal → Type 0
IsStrike op high =
    ((op ≡ above) × (high ≡ none)) ⊎ ((op ≡ between) × ((h : Decimal) × (high ≡ some h)))

-- The series is of the table, and the station and the variable are its own; the day is a date of the
-- years 2000 to 2099; and the strike is a threshold alone or a range with both its ends.
abbrev pub IsValid : Metadata → Type 0
IsValid m =
    ((s : Series) × Within series_to_station_var s
      × (m.series ≡ s.name)
      × (m.station ≡ s.station)
      × (m.variable ≡ s.variable))
    × IsDate m.day
    × IsStrike m.op m.threshold_high

module _ {A : Type 0} where
  abbrev or_else : A → Option A → A
  or_else d none = d
  or_else d (some a) = a

  same_value : {a b : A} → some a ≡ some b → b ≡ a
  same_value {a = a} e = ap (or_else a) (sym e)

find_series-Within :
    (name : List ℕ) (table : List Series) (s : Series)
    → find_series name table ≡ some s
    → Within table s
find_series-Within name [] s = λ h. absurd (none-is_not h)
find_series-Within name (x ∷ xs) s = elim (Bool-cases (same_codes (codes x.name) name)) [
  | inl e ↦ rw e (λ h. inl (same_value h))
  | inr e ↦ rw e (λ h. inr (find_series-Within name xs s h))
]

stripped-Within :
    (part : List ℕ) (p : Option (List ℕ)) (s : Series) → stripped part p ≡ some s → FromTable s
stripped-Within part none s = find_series-Within part series_to_station_var s
stripped-Within part (some p) s = elim (Option-cases (find_series p series_to_station_var)) [
  | inl e ↦ rw (stripped, e) (find_series-Within part series_to_station_var s)
  | inr (x, e) ↦ rw (stripped, e) (λ h. find_series-Within p series_to_station_var s (e ∙ h))
]

within-month :
    (year month day : ℕ)
    → (leb 1 day && leb day (days_in_month year month)) ≡ true
    → IsInMonth year month day
within-month year month day e = (
  ground arith,
  ground arith,
  λ short. ground arith,
  λ february. ground arith,
  λ february common. ground arith,
)

abbrev IsMonth : ℕ → Type 0
IsMonth month = (1 ≤ month) × (month ≤ 12)

find_month-IsMonth :
    (name : List ℕ) (table : List (String × ℕ)) (month : ℕ)
    → All (λ row. IsMonth row.1) table
    → find_month name table ≡ some month
    → IsMonth month
find_month-IsMonth name [] month k = λ h. absurd (none-is_not h)
find_month-IsMonth name ((m, n) ∷ rest) month k = elim (Bool-cases (same_codes (codes m) name)) [
  | inl e ↦ rw e (λ h. subst IsMonth (sym (same_value h)) k.0)
  | inr e ↦ rw e (find_month-IsMonth name rest month k.1)
]

month_map-IsMonth : All (λ row. IsMonth row.1) month_map
month_map-IsMonth = ground arith

make_date-IsDate :
    (yy month day d : ℕ)
    → yy ≤ 99
    → IsMonth month
    → make_date (2000 + yy) month day ≡ some d
    → IsDate d
make_date-IsDate yy month day d small k =
    elim (Bool-cases (leb 1 day && leb day (days_in_month (2000 + yy) month))) [
      | inl e ↦ rw e (λ h. (
        2000 + yy,
        month,
        day,
        omega arith,
        omega arith,
        k.0,
        k.1,
        within-month (2000 + yy) month day e,
        same_value h,
      ))
      | inr e ↦ rw e (λ h. absurd (none-is_not h))
    ]

dated-IsDate :
    (yy day : ℕ) (month : Option ℕ) (d : ℕ)
    → yy ≤ 99
    → ((m : ℕ) → month ≡ some m → IsMonth m)
    → dated yy day month ≡ some d
    → IsDate d
dated-IsDate yy day none d small k = λ h. absurd (none-is_not h)
dated-IsDate yy day (some month) d small k = make_date-IsDate yy month day d small (k month refl)

two_digits-small : (a b : ℕ) → is_digit a ≡ true → is_digit b ≡ true → two_digits a b ≤ 99
two_digits-small a b e f = ground arith

parse_date_part-IsDate : (cs : List ℕ) (d : ℕ) → parse_date_part cs ≡ some d → IsDate d
parse_date_part-IsDate [] d = λ h. absurd (none-is_not h)
parse_date_part-IsDate (a ∷ []) d = λ h. absurd (none-is_not h)
parse_date_part-IsDate (a ∷ b ∷ []) d = λ h. absurd (none-is_not h)
parse_date_part-IsDate (a ∷ b ∷ c ∷ []) d = λ h. absurd (none-is_not h)
parse_date_part-IsDate (a ∷ b ∷ c ∷ e ∷ []) d = λ h. absurd (none-is_not h)
parse_date_part-IsDate (a ∷ b ∷ c ∷ e ∷ f ∷ []) d = λ h. absurd (none-is_not h)
parse_date_part-IsDate (a ∷ b ∷ c ∷ e ∷ f ∷ g ∷ []) d = λ h. absurd (none-is_not h)
parse_date_part-IsDate (a ∷ b ∷ c ∷ e ∷ f ∷ g ∷ i ∷ rest) d =
    if_matched
      ((is_digit a && is_digit b)
        && ((is_letter c && is_letter e) && is_letter f)
        && ((is_digit g && is_digit i) && at_end rest))
      (dated (two_digits a b) (two_digits g i) (find_month (c ∷ e ∷ f ∷ []) month_map))
      (λ m.
        dated-IsDate (two_digits a b) (two_digits g i) (find_month (c ∷ e ∷ f ∷ []) month_map) d
          (two_digits-small a b (ground arith) (ground arith))
          λ month. find_month-IsMonth (c ∷ e ∷ f ∷ []) month_map month month_map-IsMonth)
  where
    if_matched :
        (b : Bool) (x : Option ℕ)
        → (b ≡ true → x ≡ some d → IsDate d)
        → (if b then x else none) ≡ some d
        → IsDate d
    if_matched true x f = f refl
    if_matched false x f = λ h. absurd (none-is_not h)

abbrev Sound : Option Strike → Type 0
Sound s =
    (op : Op) (low : Decimal) (high : Option Decimal) → s ≡ some (op, low, high) → IsStrike op high

none-Sound : Sound none
none-Sound op low high h = absurd (none-is_not h)

abbrev the_op : Strike → Op
the_op (op, low, high) = op

abbrev the_high : Strike → Option Decimal
the_high (op, low, high) = high

if-Sound : (b : Bool) (x y : Option Strike) → Sound x → Sound y → Sound (if b then x else y)
if-Sound true x y f g = f
if-Sound false x y f g = g

ranged-Sound : (low : Decimal) (r : Option (Decimal × List ℕ)) → Sound (ranged low r)
ranged-Sound low none = none-Sound
ranged-Sound low (some (h, rest)) =
    if-Sound _ _ _ (λ op l high e. inr (ap the_op (same_value e), (h, ap the_high (same_value e))))
      none-Sound

after_low-Sound : (r : Option (Decimal × List ℕ)) → Sound (after_low r)
after_low-Sound none = none-Sound
after_low-Sound (some (low, [])) = none-Sound
after_low-Sound (some (low, c ∷ rest)) =
    if-Sound (c == b'T') (ranged low (read_number rest)) none (ranged-Sound low (read_number rest))
      none-Sound

after_threshold-Sound : (r : Option (Decimal × List ℕ)) → Sound (after_threshold r)
after_threshold-Sound none = none-Sound
after_threshold-Sound (some (t, rest)) =
    if-Sound _ _ _ (λ op l high e. inl (ap the_op (same_value e), ap the_high (same_value e)))
      none-Sound

parse_strike-Sound : (cs : List ℕ) → Sound (parse_strike cs)
parse_strike-Sound [] = none-Sound
parse_strike-Sound (c ∷ cs) =
    let n = read_number cs in
    if-Sound (c == b'B') (after_low n) (if c == b'T' then after_threshold n else none)
      (after_low-Sound n)
      (if-Sound (c == b'T') (after_threshold n) none (after_threshold-Sound n) none-Sound)

assembled-IsValid :
    (ticker : String) (s : Option Series) (d : Option ℕ) (k : Option Strike) (m : Metadata)
    → ((x : Series) → s ≡ some x → FromTable x)
    → ((x : ℕ) → d ≡ some x → IsDate x)
    → Sound k
    → assembled ticker s d k ≡ some m
    → IsValid m
assembled-IsValid ticker none d k m f g r = λ h. absurd (none-is_not h)
assembled-IsValid ticker (some s) none k m f g r = λ h. absurd (none-is_not h)
assembled-IsValid ticker (some s) (some d) none m f g r = λ h. absurd (none-is_not h)
assembled-IsValid ticker (some s) (some d) (some (op, low, high)) m f g r = λ h.
    subst IsValid (sym (same_value h))
      ((s, f s refl, refl, refl, refl), g d refl, r op low high refl)

-- A ticker that parses names a series of the table, with that series' station and variable, a date
-- of the years 2000 to 2099 that the calendar has, and either a single threshold to exceed or a range with both its ends.
pub parse_kalshi_weather_ticker-IsValid :
    (ticker : String) (m : Metadata) → parse_kalshi_weather_ticker ticker ≡ some m → IsValid m
unfolding parse_kalshi_weather_ticker parse_parts
parse_kalshi_weather_ticker-IsValid ticker m = split (split_dash (map upper (codes ticker)))
  where
    split : (parts : List (List ℕ)) → parse_parts ticker parts ≡ some m → IsValid m
    split [] = λ h. absurd (none-is_not h)
    split (a ∷ []) = λ h. absurd (none-is_not h)
    split (a ∷ b ∷ []) = λ h. absurd (none-is_not h)
    split (a ∷ b ∷ c ∷ more) =
        assembled-IsValid ticker (known_series a) (parse_date_part b)
          (parse_strike (join_dash c more)) m (stripped-Within a (strip_m a))
          (parse_date_part-IsDate b) (parse_strike-Sound (join_dash c more))
