-- ===== src/Core/Rules/Toggle.antt =====
-- The operator's toggle: what `set_strategy_enabled` writes is what `is_strategy_enabled` reads.
use blackhole_network.Base.{String, Bool, none, some, ◌≡◌}
use blackhole_network.Core.World.{World, Env, Fields, missing_env, paper_only}
use blackhole_network.Core.Monad.{Call, pass, raise_if, write, ◌>>=◌, ◌>>◌}
use blackhole_network.Core.Monad.Keeps.{Keeps}
use blackhole_network.Core.Environ.{load_env}
use blackhole_network.Core.Rules.{toggled}
use blackhole_network.Core.Rules.Cache.{rules_of}

-- The world after a toggle.
abbrev after : Env → String → Bool → Fields → Fields → World → World
after env sid on block f w = record w {
  rules_file = some (toggled env sid on block f, env.now);
  rules_cache = none;
  rules_mtime = 0;
}

abbrev log_line : Call (Unit {0})
log_line = load_env >>= λ core. pass tt

-- The rules are the same.
record SameRules (w w' : World) : Type 0 where
  rules : rules_of w' ≡ rules_of w

-- `_load_env` with its two checks decided.
abbrev checked : Bool → Bool → String → Bool → Call (String × Bool)
checked p q url live = do
  raise_if p missing_env
  raise_if q paper_only
  write (λ x. record x { core_env = some (url, live) })
  pass (url, live)
