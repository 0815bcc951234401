-- ===== src/Prediction/Ticker.antt =====
-- prediction_signal.py, parse_kalshi_weather_ticker: the ticker of a Kalshi weather market, such as
-- KXHIGHMIA-26MAY15-T80, on the code points of an ASCII text.
pub mod Valid
use blackhole_network.Base.{
  ℕ, ◌+◌, ◌-◌, ◌*◌, ◌%◌, String, Bool, true, false, not, ◌&&◌, ◌||◌, Option, none, some, is_some,
  List, [], ◌∷◌, ◌++◌, map, leb, ◌==◌, if◌then◌else◌, codes, upper, same_codes,
}
use blackhole_network.Prediction.Types.{
  Variable, tmax_f, tmin_f, Decimal, Op, above, between, Metadata,
}

-- SERIES_TO_STATION_VAR
pub record Series : Type 0 where
  pub name : String
  pub station : String
  pub variable : Variable

abbrev entry : String → String → Variable → Series
entry name station v = record { name = name; station = station; variable = v }

pub series_to_station_var : List Series
series_to_station_var =
    entry "KXHIGHMIA" "KMIA" tmax_f
    ∷ entry "KXLOWMIA" "KMIA" tmin_f
    ∷ entry "KXHIGHPHX" "KPHX" tmax_f
    ∷ entry "KXLOWPHX" "KPHX" tmin_f
    ∷ entry "KXHIGHDEN" "KDEN" tmax_f
    ∷ entry "KXLOWDEN" "KDEN" tmin_f
    ∷ entry "KXHIGHLAX" "KLAX" tmax_f
    ∷ entry "KXLOWLAX" "KLAX" tmin_f
    ∷ entry "KXHIGHDFW" "KDFW" tmax_f
    ∷ entry "KXLOWDFW" "KDFW" tmin_f
    ∷ []

abbrev find_series : List ℕ → List Series → Option Series
find_series name [] = none
find_series name (s ∷ ss) = if same_codes (codes s.name) name then some s else find_series name ss

-- `s.split("-")`
abbrev split_first : ℕ → List (List ℕ) → List (List ℕ)
split_first c [] = (c ∷ []) ∷ []
split_first c (p ∷ ps) = (c ∷ p) ∷ ps

abbrev split_dash : List ℕ → List (List ℕ)
split_dash [] = [] ∷ []
split_dash (c ∷ cs) =
    let rest = split_dash cs in if c == b'-' then [] ∷ rest else split_first c rest

-- `"-".join(parts)`
abbrev join_dash : List ℕ → List (List ℕ) → List ℕ
join_dash p [] = p
join_dash p (q ∷ qs) = p ++ b'-' ∷ join_dash q qs

-- What stands before a trailing M.
abbrev strip_m : List ℕ → Option (List ℕ)
strip_m [] = none
strip_m (c ∷ []) = if c == b'M' then some [] else none
strip_m (c ∷ d ∷ cs) = elim (strip_m (d ∷ cs)) [ none ↦ none | some p ↦ some (c ∷ p) ]

abbrev stripped : List ℕ → Option (List ℕ) → Option Series
stripped part none = find_series part series_to_station_var
stripped part (some p) = elim (find_series p series_to_station_var) [
  | none ↦ find_series part series_to_station_var
  | some s ↦ some s
]

abbrev known_series : List ℕ → Option Series
unfolding series_to_station_var
known_series part = stripped part (strip_m part)

abbrev is_digit : ℕ → Bool
is_digit c = leb b'0' c && leb c b'9'

-- `$`, which also stands before a final line break
abbrev at_end : List ℕ → Bool
at_end [] = true
at_end (c ∷ []) = c == 10
at_end (c ∷ d ∷ cs) = false

-- _MONTH_MAP
abbrev month_map : List (String × ℕ)
month_map =
    ("JAN", 1)
    ∷ ("FEB", 2)
    ∷ ("MAR", 3)
    ∷ ("APR", 4)
    ∷ ("MAY", 5)
    ∷ ("JUN", 6)
    ∷ ("JUL", 7)
    ∷ ("AUG", 8)
    ∷ ("SEP", 9)
    ∷ ("OCT", 10)
    ∷ ("NOV", 11)
    ∷ ("DEC", 12)
    ∷ []

abbrev find_month : List ℕ → List (String × ℕ) → Option ℕ
find_month name [] = none
find_month name ((m, n) ∷ ms) = if same_codes (codes m) name then some n else find_month name ms

-- The days of a month of the years 2000 to 2099, whose leap years are those that 4 divides.
abbrev days_in_month : ℕ → ℕ → ℕ
days_in_month year month =
    if month == 2
    then (if year % 4 == 0 then 29 else 28)
    else if (month == 4 || month == 6) || (month == 9 || month == 11)
    then 30
    else 31

-- A date as one number, ordered as the dates are.
abbrev pub date_number : ℕ → ℕ → ℕ → ℕ
date_number year month day = year * 512 + month * 32 + day

-- `date(year, month, day)`, none for its ValueError
abbrev pub make_date : ℕ → ℕ → ℕ → Option ℕ
make_date year month day =
    if leb 1 day && leb day (days_in_month year month)
    then some (date_number year month day)
    else none

abbrev two_digits : ℕ → ℕ → ℕ
two_digits a b = (a - b'0') * 10 + (b - b'0')

abbrev dated : ℕ → ℕ → Option ℕ → Option ℕ
dated yy dd none = none
dated yy dd (some month) = make_date (2000 + yy) month dd

abbrev is_letter : ℕ → Bool
is_letter c = leb b'A' c && leb c b'Z'

abbrev parse_date_part : List ℕ → Option ℕ
parse_date_part (a ∷ b ∷ c ∷ d ∷ e ∷ f ∷ g ∷ rest) =
    if ((is_digit a && is_digit b) && ((is_letter c && is_letter d) && is_letter e))
      && ((is_digit f && is_digit g) && at_end rest)
    then dated (two_digits a b) (two_digits f g) (find_month (c ∷ d ∷ e ∷ []) month_map)
    else none
parse_date_part _ = none

-- The digits at the front: their value after `acc`, their number after `n`, and the rest.
abbrev read_digits : ℕ → ℕ → List ℕ → ℕ × ℕ × List ℕ
read_digits acc n [] = (acc, n, [])
read_digits acc n (c ∷ cs) =
    let rest = read_digits (acc * 10 + (c - b'0')) (n + 1) cs in
    if is_digit c then rest else (acc, n, c ∷ cs)

-- `(\.\d+)?` after the digits of value `acc`
abbrev read_places : ℕ → List ℕ → Decimal × List ℕ
read_places acc [] = (record { digits = acc; places = 0 }, [])
read_places acc (c ∷ cs) =
    let (value, n, rest) = read_digits acc 0 cs in
    if c == b'.' && not (n == 0)
    then (record { digits = value; places = n }, rest)
    else (record { digits = acc; places = 0 }, c ∷ cs)

-- `\d+(\.\d+)?`
abbrev read_number : List ℕ → Option (Decimal × List ℕ)
read_number cs =
    let (value, n, rest) = read_digits 0 0 cs in
    if n == 0 then none else some (read_places value rest)

abbrev pub Strike : Type 0
Strike = Op × Decimal × Option Decimal

abbrev ranged : Decimal → Option (Decimal × List ℕ) → Option Strike
ranged low none = none
ranged low (some (high, rest)) = if at_end rest then some (between, low, some high) else none

abbrev after_low : Option (Decimal × List ℕ) → Option Strike
after_low (some (low, c ∷ rest)) = if c == b'T' then ranged low (read_number rest) else none
after_low _ = none

abbrev after_threshold : Option (Decimal × List ℕ) → Option Strike
after_threshold none = none
after_threshold (some (t, rest)) = if at_end rest then some (above, t, none) else none

abbrev parse_strike : List ℕ → Option Strike
parse_strike [] = none
parse_strike (c ∷ cs) =
    if c == b'B'
    then after_low (read_number cs)
    else if c == b'T'
    then after_threshold (read_number cs)
    else none

abbrev assembled : String → Option Series → Option ℕ → Option Strike → Option Metadata
assembled ticker (some s) (some day) (some (op, low, high)) = some (record {
  ticker = ticker;
  series = s.name;
  station = s.station;
  variable = s.variable;
  day = day;
  threshold = low;
  op = op;
  threshold_high = high;
})
assembled ticker _ _ _ = none

abbrev parse_parts : String → List (List ℕ) → Option Metadata
unfolding known_series
parse_parts ticker (series ∷ date ∷ strike ∷ more) =
    assembled ticker (known_series series) (parse_date_part date)
      (parse_strike (join_dash strike more))
parse_parts ticker _ = none

unfoldable pub parse_kalshi_weather_ticker : String → Option Metadata
unfolding parse_parts
parse_kalshi_weather_ticker ticker = parse_parts ticker (split_dash (map upper (codes ticker)))
