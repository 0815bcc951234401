-- ===== src/Core/Rules/Cache.antt =====
-- What the rules loader returns, as a function of the file and of the cache.
use blackhole_network.Base.{
  ℕ, String, Bool, Option, none, some, ◌≡◌, refl, ltb, arith, if◌then◌else◌,
}
use blackhole_network.Core.World.{World, Fields, empty, ok}
use blackhole_network.Core.Monad.{pass}
use blackhole_network.Core.Monad.Bind.{bind_ok, bind_eq}
use blackhole_network.Core.Json.{lookup}
use blackhole_network.Core.Rules.{
  load_from, load_rules, get_strategy_rules, dict_or_empty, block_enabled, is_strategy_enabled,
}

-- The file where it is newer than the cache, else the cache; nothing where there is neither.
abbrev pub current_rules : Option (Fields × ℕ) → Option Fields → ℕ → Fields
current_rules none none mtime = empty
current_rules none (some c) mtime = c
current_rules (some (f, t)) none mtime = f
current_rules (some (f, t)) (some c) mtime = if ltb mtime t then f else c

abbrev pub rules_of : World → Fields
rules_of w = current_rules w.rules_file w.rules_cache w.rules_mtime

-- The flag of a strategy in some rules.
abbrev pub enabled_in : String → Fields → Bool
enabled_in sid rules = block_enabled (dict_or_empty (lookup sid rules))

load_from-current_rules :
    (file : Option (Fields × ℕ)) (c : Option Fields) (w : World)
    → (load_from file c w).0 ≡ ok (current_rules file c w.rules_mtime)
unfolding load_from
load_from-current_rules none none w = refl
load_from-current_rules none (some c) w = refl
load_from-current_rules (some f) none w = refl
load_from-current_rules (some f) (some c) w = ground arith

pub load_rules-rules_of : (w : World) → (load_rules w).0 ≡ ok (rules_of w)
unfolding load_rules
load_rules-rules_of w = load_from-current_rules w.rules_file w.rules_cache w

pub get_strategy_rules_lem :
    (sid : String) (w : World)
    → get_strategy_rules sid w ≡ (ok (dict_or_empty (lookup sid (rules_of w))), (load_rules w).1)
unfolding get_strategy_rules
get_strategy_rules_lem sid w =
    bind_ok load_rules (λ rules. pass (dict_or_empty (lookup sid rules))) w (load_rules-rules_of w)

-- The flag is that of the current rules, and only the cache may change.
pub is_strategy_enabled_lem :
    (sid : String) (w : World)
    → is_strategy_enabled sid w ≡ (ok (enabled_in sid (rules_of w)), (load_rules w).1)
unfolding is_strategy_enabled
is_strategy_enabled_lem sid w =
    bind_eq (get_strategy_rules sid) (λ block. pass (block_enabled block)) w
      (get_strategy_rules_lem sid w)
