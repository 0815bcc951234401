-- ===== src/Core/Sms.antt =====
-- trading_core.py: `parse_sms_toggle_command`, on the code points of an ASCII text.
pub mod RoundTrip
use blackhole_network.Base.{
  ℕ, String, Bool, true, false, ◌||◌, ◌&&◌, Option, none, some, List, [], ◌∷◌, ◌++◌, map, leb, ◌==◌,
  if◌then◌else◌, codes, upper, same_codes,
}

-- SMS_NAME_MAP
abbrev pub sms_name_map : List (String × String)
sms_name_map =
    ("STRAT1", "strat_1_congress")
    ∷ ("STRAT2", "strat_2_value")
    ∷ ("STRAT3", "strat_3_mean_reversion")
    ∷ ("STRAT4", "strat_4_momentum")
    ∷ ("STRAT5", "strat_5_pred_mkt")
    ∷ ("STRAT6", "strat_6_nasdaq_long")
    ∷ ("STRAT7", "strat_7_nasdaq_short")
    ∷ ("STRAT8", "strat_8_sector_rotation")
    ∷ ("STRAT13", "strat_13_rsi_intraday")
    ∷ []

-- The ASCII whitespace of `str.split`.
abbrev pub is_space : ℕ → Bool
is_space c = c == 32 || (leb 9 c && leb c 13) || (leb 28 c && leb c 31)

-- The word read so far, if there is one.
abbrev pub flush : List ℕ → List (List ℕ) → List (List ℕ)
flush [] rest = rest
flush (c ∷ cs) rest = (c ∷ cs) ∷ rest

-- `str.split()`, with the word read so far
unfoldable pub split_from : List ℕ → List ℕ → List (List ℕ)
split_from word [] = flush word []
split_from word (c ∷ cs) = elim (is_space c) [
  | true ↦ flush word (split_from [] cs)
  | false ↦ split_from (word ++ c ∷ []) cs
]

-- `SMS_NAME_MAP.get(name)`
unfoldable pub name_lookup : List ℕ → List (String × String) → Option String
name_lookup name [] = none
name_lookup name ((k, sid) ∷ d) = if same_codes (codes k) name then some sid else name_lookup name d

unfoldable pub parse_action : List ℕ → Option Bool
parse_action action =
    if same_codes (codes "ENABLE") action
    then some true
    else if same_codes (codes "DISABLE") action
    then some false
    else none

unfoldable pub parse_words : List (List ℕ) → Option (Bool × String)
parse_words (action ∷ name ∷ []) = elim (parse_action action) [
  | none ↦ none
  | some enabled ↦ elim (name_lookup name sms_name_map) [
    | none ↦ none
    | some sid ↦ some (enabled, sid)
  ]
]
parse_words _ = none

unfoldable pub parse_sms_toggle_command : List ℕ → Option (Bool × String)
parse_sms_toggle_command text = parse_words (split_from [] (map upper text))
