-- ===== src/Core/World.antt =====
-- What the functions of scripts/trading/ read and write: the tables, rules.json and its cache, the
-- process's variables, the calls made to the broker; and what the outside answers.
use blackhole_network.Base.{ℕ, String, Bool, Option, List}
use blackhole_network.Base.Int.{ℤ}
use blackhole_network.Core.Types.{
  Action, Strategy, Signal, Trade, BreakerEvent, Performance, Heartbeat, Alert, Message, Blocked,
}

-- A JSON value; a number is `m` / 10^`e`.
mutual
  pub data Json : Type 0 where
    null : Json
    bool : Bool → Json
    num : ℤ → ℕ → Json
    str : String → Json
    arr : Items → Json
    obj : Fields → Json

  pub data Items : Type 0 where
    nil : Items
    cons : Json → Items → Items

  pub data Fields : Type 0 where
    empty : Fields
    field : String → Json → Fields → Fields

-- What the source raises.
pub data Error : Type 0 where
  missing_env paper_only account_blocked : Error
  unknown_strategy : String → Error
  unknown_trade already_closed : ℕ → Error
  refused : Blocked → Error
  not_approved : String → Error
  value_error no_rules_file no_block no_broker broker_incomplete env_not_set : Error
  -- a CHECK of the schema, a division by zero, a name that a module lacks
  integrity_error division_by_zero attribute_error : Error
  -- an exception of the broker's client
  broker_error : ℕ → Error
  no_strategy_client : String → Error
  type_error : Error

pub data Result (A : Type 0) : Type 0 where
  ok : A → Result A
  raised : Error → Result A

-- A REST client: its key and secret, none for those that `_load_env` read, and where it points.
pub record Client : Type 0 where
  pub credentials : Option (String × String)
  pub base_url : String

pub record Account : Type 0 where
  pub account_blocked : Bool
  pub trading_blocked : Bool

pub record OrderRequest : Type 0 where
  pub symbol : String
  pub qty : ℕ
  pub side : Action
  pub limit_price : Option ℕ

pub record Order : Type 0 where
  pub id : String
  pub filled_avg_price : Option ℕ
  pub limit_price : Option ℕ

pub record Position : Type 0 where
  pub symbol : String
  pub qty : ℤ
  pub avg_entry_price : ℕ

-- A row of the SQLite cache.
pub record CacheRow : Type 0 where
  pub ticker : String
  pub qty : ℤ
  pub avg_entry_price : ℕ

-- A call that changes something at the broker.
pub data Request : Type 0 where
  submitted : Client → OrderRequest → Request
  cancelled : Client → String → Request

pub record World : Type 0 where
  pub strategies : List Strategy
  pub signals : List Signal
  pub trades : List Trade
  pub events : List BreakerEvent
  pub performance : List Performance
  pub heartbeats : List Heartbeat
  -- rules.json with its mtime, and the cache `_RULES`, `_RULES_MTIME`
  pub rules_file : Option (Fields × ℕ)
  pub rules_cache : Option Fields
  pub rules_mtime : ℕ
  -- `_ENV`: the broker's address and the live mode
  pub core_env : Option (String × Bool)
  -- `os.environ`, `_STRATEGY_ENV_LOADED`, `_STRATEGY_ALPACA`, `_ALPACA`
  pub environ : List (String × String)
  pub env_loaded : List String
  pub strategy_clients : List (String × Client)
  pub default_client : Option Client
  pub requests : List Request
  pub alerts : List Alert
  pub texts : List Message

-- The answers of what is not in the repository: the clock, the broker, the files of credentials.
pub record Env : Type 0 where
  pub now : ℕ
  pub today : ℕ
  -- the time as `set_strategy_enabled` writes it
  pub stamp : String
  pub market_is_open : Result Bool
  pub env_file : String → List (String × String)
  pub get_account : Client → Result Account
  pub list_orders : Client → Result (List Order)
  pub cancel_order : Client → String → Result (Unit {0})
  pub submit_order : Client → OrderRequest → Result Order
  -- `get_order` at each poll
  pub get_order : Client → String → ℕ → Result Order
  pub latest_trade : Client → String → Result ℕ
  pub list_positions : Client → Result (List Position)
  -- the rows of the cache file, none where it is missing
  pub nj_cache : Result (Option (List CacheRow))
  -- whether `trading_core` has the attribute `json_safe`
  pub has_json_safe : Bool
  -- whether Twilio accepts a message
  pub sms_accepted : Bool
  -- whether reconciliation_heartbeat has the columns that the statement names
  pub heartbeat_ok : Bool
