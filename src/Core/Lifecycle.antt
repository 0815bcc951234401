-- ===== src/Core/Lifecycle.antt =====
-- trading_core.py: the rows of trading_strategies and their status.
use blackhole_network.Base.{
  String, Bool, true, false, Option, none, some, List, [], ◌∷◌, str_eq, if◌then◌else◌,
}
use blackhole_network.Core.Types.{Status, active, halted, Message, Strategy}
use blackhole_network.Core.World.{unknown_strategy}
use blackhole_network.Core.Monad.{Call, pass, or_raise, write, ◌>>=◌}

abbrev pub system_id : String
system_id = "system"

-- `SELECT * FROM trading_strategies WHERE id = …`
abbrev pub find_strategy : String → List Strategy → Option Strategy
find_strategy sid [] = none
find_strategy sid (s ∷ ss) = if str_eq s.id sid then some s else find_strategy sid ss

unfoldable pub get_strategy_meta : String → Call Strategy
get_strategy_meta sid w = or_raise (find_strategy sid w.strategies) (unknown_strategy sid) w

abbrev pub is_active : Status → Bool
is_active active = true
is_active _ = false

abbrev pub is_halted : Status → Bool
is_halted halted = true
is_halted _ = false

unfoldable pub is_strategy_active : String → Call Bool
unfolding get_strategy_meta
is_strategy_active sid = do meta ← get_strategy_meta sid; pass (is_active meta.status)

unfoldable pub is_system_halted : Call Bool
unfolding get_strategy_meta
is_system_halted = do meta ← get_strategy_meta system_id; pass (is_halted meta.status)

-- `UPDATE trading_strategies SET status, reason WHERE id = …`
abbrev pub set_status : String → Status → Message → List Strategy → List Strategy
set_status sid st why [] = []
set_status sid st why (s ∷ ss) =
    (if str_eq s.id sid then record s { status = st; reason = why } else s)
    ∷ set_status sid st why ss

unfoldable pub update_strategy_status : String → Status → Message → Call (Unit {0})
update_strategy_status sid st why =
    write (λ w. record w { strategies = set_status sid st why w.strategies })
