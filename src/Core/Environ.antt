-- ===== src/Core/Environ.antt =====
-- trading_core.py: `_load_env`.
use blackhole_network.Base.{
  String, Bool, true, false, not, ◌&&◌, ◌||◌, Option, none, some, List, [], ◌∷◌, map, get, codes,
  lower, same_codes, contains,
}
use blackhole_network.Core.World.{missing_env, paper_only}
use blackhole_network.Core.Monad.{Call, pass, read, write, raise_if, ◌>>=◌, ◌>>◌}

abbrev required_vars : List String
required_vars =
    "ALPACA_API_KEY" ∷ "ALPACA_API_SECRET" ∷ "ALPACA_BASE_URL" ∷ "PG_HOST" ∷ "PG_PORT" ∷ "PG_DB"
    ∷ "PG_USER" ∷ "PG_PASSWORD" ∷ []

-- A value that is neither missing nor empty.
abbrev pub is_set : Option String → Bool
is_set none = false
is_set (some String.[]) = false
is_set (some (String.◌∷◌ c s)) = true

abbrev all_set : List String → List (String × String) → Bool
all_set [] vars = true
all_set (v ∷ vs) vars = is_set (get v vars) && all_set vs vars

abbrev pub text_or : String → Option String → String
text_or d none = d
text_or d (some s) = s

-- `os.environ.get("TRADING_LIVE_MODE", "false").lower() == "true"`
unfoldable pub live_mode_of : List (String × String) → Bool
live_mode_of vars =
    same_codes (map lower (codes (text_or "false" (get "TRADING_LIVE_MODE" vars)))) (codes "true")

-- A client that points at `url` may be made.
abbrev pub url_allowed : String → Bool → Bool
url_allowed url live = contains "paper-api" url || live

abbrev pub load_env_from : Option (String × Bool) → Call (String × Bool)
load_env_from (some cached) = pass cached
load_env_from none = do
  vars ← read (λ w. w.environ)
  raise_if (not (all_set required_vars vars)) missing_env
  let url = text_or "" (get "ALPACA_BASE_URL" vars)
  let live = live_mode_of vars
  raise_if (not (url_allowed url live)) paper_only
  write (λ w. record w { core_env = some (url, live) })
  pass (url, live)

-- `_load_env`: the base URL and the live mode.
unfoldable pub load_env : Call (String × Bool)
load_env w = load_env_from w.core_env w
