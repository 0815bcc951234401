-- ===== src/Core/Rules.antt =====
-- trading_core.py: the rules.json loader with its mtime cache, and the enable/disable toggle.
-- The file is held as the JSON object that `json.load` reads from it, with its mtime.
pub mod Cache
pub mod Toggle
use blackhole_network.Base.{
  ℕ, String, Bool, true, false, not, Option, none, some, List, [], ◌∷◌, ltb, is_some, get,
  if◌then◌else◌,
}
use blackhole_network.Core.World.{
  Env, Fields, Json, bool, str, obj, empty, ok, value_error, no_rules_file, no_block,
}
use blackhole_network.Core.Monad.{Call, pass, read, or_raise, write, raise_if, ◌>>=◌, ◌>>◌}
use blackhole_network.Core.Environ.{load_env}
use blackhole_network.Core.Json.{lookup, assign, truth}

-- STRAT_NUMBER
abbrev pub strat_number : List (String × ℕ)
strat_number =
    ("strat_1_congress", 1)
    ∷ ("strat_2_value", 2)
    ∷ ("strat_3_mean_reversion", 3)
    ∷ ("strat_4_momentum", 4)
    ∷ ("strat_5_pred_mkt", 5)
    ∷ ("strat_6_nasdaq_long", 6)
    ∷ ("strat_7_nasdaq_short", 7)
    ∷ ("strat_8_sector_rotation", 8)
    ∷ ("strat_13_rsi_intraday", 13)
    ∷ []

unfoldable pub load_from : Option (Fields × ℕ) → Option Fields → Call Fields
load_from none none w = (ok empty, record w { rules_cache = some empty })
load_from none (some cached) w = (ok cached, w)
load_from (some (f, t)) none w = (ok f, record w { rules_cache = some f; rules_mtime = t })
load_from (some (f, t)) (some cached) w =
    if ltb w.rules_mtime t
    then (ok f, record w { rules_cache = some f; rules_mtime = t })
    else (ok cached, w)

unfoldable pub load_rules : Call Fields
unfolding load_from
load_rules w = load_from w.rules_file w.rules_cache w

-- `block if isinstance(block, dict) else {}`
abbrev pub dict_or_empty : Option Json → Fields
dict_or_empty (some (obj fs)) = fs
dict_or_empty _ = empty

unfoldable pub get_strategy_rules : String → Call Fields
get_strategy_rules sid = do rules ← load_rules; pass (dict_or_empty (lookup sid rules))

-- `bool(block.get("enabled", True))`
abbrev flag : Option Json → Bool
flag none = true
flag (some v) = truth v

-- What `is_strategy_enabled` computes from a block.
unfoldable pub block_enabled : Fields → Bool
block_enabled block = if truth (obj block) then flag (lookup "enabled" block) else false

unfoldable pub is_strategy_enabled : String → Call Bool
is_strategy_enabled sid = do block ← get_strategy_rules sid; pass (block_enabled block)

-- The block of a strategy, where `isinstance(block, dict)`.
abbrev block_of : Option Json → Option Fields
block_of (some (obj fs)) = some fs
block_of _ = none

abbrev file_of : Option (Fields × ℕ) → Option Fields
file_of none = none
file_of (some (f, t)) = some f

module _ (env : Env) where
  toggled : String → Bool → Fields → Fields → Fields
  toggled sid enabled block rules =
      assign "updated_at" (str env.stamp)
        (assign sid (obj (assign "enabled" (bool enabled) block)) rules)

  -- The last line logs: get_logger("system") calls _load_env, which may raise, after the file is written.
  unfoldable pub set_strategy_enabled : String → Bool → Call (Unit {0})
  unfolding toggled
  set_strategy_enabled sid enabled = do
    raise_if (not (is_some (get sid strat_number))) value_error
    file ← read (λ w. file_of w.rules_file)
    rules ← or_raise file no_rules_file
    block ← or_raise (block_of (lookup sid rules)) no_block
    write (λ w. record w {
      rules_file = some (toggled sid enabled block rules, env.now);
      rules_cache = none;
      rules_mtime = 0;
    })
    load_env >>= λ core. pass tt
