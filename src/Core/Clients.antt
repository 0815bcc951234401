-- ===== src/Core/Clients.antt =====
-- trading_core.py: `get_alpaca`, the credentials and clients of each strategy.
pub mod Frame
pub mod Returns
pub mod Safety
use blackhole_network.Base.{
  String, Bool, true, false, not, ◌&&◌, ◌||◌, Option, none, some, List, [], ◌∷◌, map, is_some, get,
  put, keys, elem, codes, lower, same_codes, contains, if◌then◌else◌,
}
use blackhole_network.Core.World.{
  Env, Fields, Json, str, obj, empty, Client, Account, Result, ok, raised, missing_env, paper_only,
  account_blocked, no_broker, broker_incomplete, env_not_set, type_error,
}
use blackhole_network.Core.Monad.{Call, pass, read, raise, answer, write, raise_if, ◌>>=◌, ◌>>◌}
use blackhole_network.Core.Json.{lookup, truth}
unfoldable pub use blackhole_network.Core.Environ.{
  is_set, text_or, live_mode_of, url_allowed, load_env_from, load_env,
}
use blackhole_network.Core.Rules.{strat_number, get_strategy_rules}

abbrev pub is_blocked : Account → Bool
is_blocked a = a.account_blocked || a.trading_blocked

-- `os.environ.setdefault` for each line of the file
abbrev set_defaults : List (String × String) → List (String × String) → List (String × String)
set_defaults [] vars = vars
set_defaults ((k, v) ∷ lines) vars =
    set_defaults lines (if is_some (get k vars) then vars else put k v vars)

-- `sb.get(k)` where it is a non-empty text.
abbrev text_field : Option Json → Call (Option String)
text_field none = pass none
text_field (some (str s)) = pass (if is_set (some s) then some s else none)
text_field (some v) = if truth v then raise type_error else pass none

-- `block.get("broker") or {}`
abbrev broker_of : Option Json → Call Fields
broker_of none = pass empty
broker_of (some (obj fs)) = pass fs
broker_of (some v) = if truth v then raise type_error else pass empty

abbrev credential : Option String → List (String × String) → Bool
credential none vars = false
credential (some name) vars = is_set (get name vars)

abbrev value_of : Option String → List (String × String) → String
value_of none vars = ""
value_of (some name) vars = text_or "" (get name vars)

module _ (env : Env) where
  -- The client is stored before the account is checked, as in the source.
  first_client : String × Bool → Call Client
  first_client (url, live) = do
    let client : Client = record { credentials = none; base_url = url }
    write (λ w. record w { default_client = some client })
    account ← answer (env.get_account client)
    raise_if (is_blocked account) account_blocked
    pass client

  unfoldable pub get_alpaca_from : Option Client → Call Client
  unfolding first_client
  get_alpaca_from (some client) = pass client
  get_alpaca_from none = load_env >>= first_client

  unfoldable pub get_alpaca : Call Client
  unfolding get_alpaca_from load_env
  get_alpaca w = get_alpaca_from w.default_client w

  unfoldable pub load_strategy_env : String → Call (Unit {0})
  load_strategy_env sid = do
    loaded ← read (λ w. elem sid w.env_loaded)
    write (λ w. if loaded || not (is_some (get sid strat_number)) then w else record w {
      environ = set_defaults (env.env_file sid) w.environ;
      env_loaded = sid ∷ w.env_loaded;
    })

  -- From the credentials to a checked client, which is then stored.
  unfoldable pub connect : String → Option String → Option String → Option String → Call Client
  unfolding load_strategy_env
  connect sid key_env secret_env none = raise broker_incomplete
  connect sid key_env secret_env (some url) = do
    raise_if (not (is_some key_env && is_some secret_env)) broker_incomplete
    load_strategy_env sid
    vars ← read (λ w. w.environ)
    raise_if (not (credential key_env vars && credential secret_env vars)) env_not_set
    raise_if (not (url_allowed url (live_mode_of vars))) paper_only
    let client : Client = record {
      credentials = some (value_of key_env vars, value_of secret_env vars);
      base_url = url;
    }
    account ← answer (env.get_account client)
    raise_if (is_blocked account) account_blocked
    write (λ w. record w { strategy_clients = put sid client w.strategy_clients })
    pass client

  unfoldable pub new_client : String → Call Client
  unfolding connect
  new_client sid = do
    block ← get_strategy_rules sid
    broker ← broker_of (lookup "broker" block)
    raise_if (not (truth (obj broker))) no_broker
    key_env ← text_field (lookup "alpaca_key_id" broker)
    secret_env ← text_field (lookup "alpaca_secret" broker)
    url ← text_field (lookup "alpaca_base_url" broker)
    connect sid key_env secret_env url

  unfoldable pub client_from : String → Option Client → Call Client
  unfolding new_client
  client_from sid (some client) = pass client
  client_from sid none = new_client sid

  unfoldable pub get_strategy_alpaca : String → Call Client
  unfolding client_from
  get_strategy_alpaca sid w = client_from sid (get sid w.strategy_clients) w

  -- `for sid, client in iter_strategy_alpaca_clients(): body(sid, client)`: a strategy without a
  -- client is skipped, and what the body raises is not caught.
  module _ {S : Type 0} (body : String → Client → S → Call S) where
    unfoldable pub visit : String → S → Result Client → Call S
    visit sid s (ok client) = body sid client s
    visit sid s (raised e) = pass s

    unfoldable pub for_clients_in : List String → S → Call S
    unfolding visit
    for_clients_in [] s w = (ok s, w)
    for_clients_in (sid ∷ sids) s w =
        let (r, w') = get_strategy_alpaca sid w in (visit sid s r >>= for_clients_in sids) w'

    unfoldable pub for_clients : S → Call S
    unfolding for_clients_in
    for_clients = for_clients_in (keys strat_number)
