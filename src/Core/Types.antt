-- ===== src/Core/Types.antt =====
-- The enums and rows of scripts/trading/trading_core.py: strategies, signals, trades, breaker
-- events, mismatches. Money is in ten-thousandths of a dollar (NUMERIC(12,4)); a text that is only
-- composed by an f-string is a constructor with the holes of the f-string.
use blackhole_network.Base.{ℕ, String, Bool, Option}
use blackhole_network.Base.Int.{ℤ}

-- trading_strategies.status
pub data Status : Type 0 where
  active paused halted error : Status

pub data Action : Type 0 where
  buy sell hold : Action

pub data TradeStatus : Type 0 where
  opened closed : TradeStatus

pub data ExitReason : Type 0 where
  stop_loss target trailing_stop time_exit manual breaker_halt system_halt : ExitReason
  end_of_day reconcile_close : ExitReason

pub data BreakerType : Type 0 where
  daily_loss_5pct weekly_loss_10pct drawdown_15pct manual_killswitch : BreakerType

pub data MismatchType : Type 0 where
  unknown_position missing_position sync_drift : MismatchType

pub data MarketPhase : Type 0 where
  market_closed market_open open_volatile high_vix : MarketPhase

-- `meta["status"]` other than active, and the other refusals of `should_run`.
pub data Blocked : Type 0 where
  system_halted disabled_in_rules closed_market : Blocked
  strategy_status : Status → Blocked
  breaker_tripped : BreakerType → Blocked

-- The account a mismatch was found on.
pub data AccountLabel : Type 0 where
  default_account unconfigured : AccountLabel
  strategy_account : String → AccountLabel

-- The dataclass `Mismatch`; `value_usd` is in ten-thousandths.
pub record Mismatch : Type 0 where
  pub kind : MismatchType
  pub strategy_id : Option String
  pub ticker : String
  pub expected_qty : ℤ
  pub actual_qty : ℤ
  pub value_usd : ℕ
  pub account : AccountLabel

-- The texts of reasons and alerts.
pub data Message : Type 0 where
  note : String → Message
  -- the reason of a composed signal with its target, and a change of state: strategy, old, new
  signal_text : Option String → Message
  -- a risk close: the id of its trade, and the reason
  close_text : ℕ → ExitReason → Message
  transition_text : String → String → String → Message → Message
  -- a rotation of the sectors: the holding before and after
  rotation_text : Option String → Option String → Message
  -- legs closed or opened, and the reason
  legs_text : ℕ → Message → Message
  breaker_reason : BreakerType → Message → Message
  drawdown_trip : String → Message → Message
  breaker_reset : String → String → Message
  breaker_alert : BreakerType → String → Message → Message
  mismatch_reason mismatch_halt mismatch_alert : MismatchType → String → Message
  divergences : ℕ → Message
  operator_reset : String → Message
  -- the texts of the kill switch: reason, cancelled, flattened, failed, id; previous reason, note
  killswitch_text : Message → ℕ → ℕ → ℕ → ℕ → Message
  reset_text : Message → String → Message

pub data Severity : Type 0 where
  info warning : Severity
  of_status : Status → Severity

-- A quotient of two amounts, kept exact: `num / den`.
pub record Ratio : Type 0 where
  pub num : ℤ
  pub den : ℕ

pub record Strategy : Type 0 where
  pub id : String
  pub status : Status
  pub capital_allocation : ℕ
  pub live_mode_approved : Bool
  pub reason : Message

pub record Signal : Type 0 where
  pub id : ℕ
  pub strategy_id : String
  pub ticker : String
  pub action : Action
  pub acted_on : Bool
  pub reason : Message
  pub trade_id : Option ℕ

pub record Trade : Type 0 where
  pub id : ℕ
  pub strategy_id : String
  pub ticker : String
  pub side : Action
  pub qty : ℕ
  pub entry_price : ℕ
  pub entry_time : ℕ
  pub status : TradeStatus
  pub exit_price : Option ℕ
  pub exit_reason : Option ExitReason
  pub pnl_dollar : Option ℤ
  pub pnl_pct : Option Ratio
  pub signal_id : Option ℕ
  pub stop_level : Option ℕ
  pub target_level : Option ℕ
  pub order_entry : Option String
  pub order_exit : Option String
  -- metadata['water_mark'], for strategy 4 metadata['highest_close_since_entry']
  pub water_mark : Option ℕ

pub data EventClass : Type 0 where
  circuit_breaker reconciliation manual_halt : EventClass

pub data EventType : Type 0 where
  of_breaker : BreakerType → EventType
  of_mismatch : MismatchType → EventType
  halt_only halt_and_flatten reset_event : EventType

pub data Scope : Type 0 where
  strategy_scope system_scope : Scope

-- circuit_breaker_log
pub record BreakerEvent : Type 0 where
  pub id : ℕ
  pub event_class : EventClass
  pub event_type : EventType
  pub severity : Severity
  pub strategy_id : Option String
  pub affects_scope : Scope
  pub reason : Message
  pub halt_triggered : Bool
  pub resolved_by : Option String

-- strategy_performance; `date` counts days.
pub record Performance : Type 0 where
  pub strategy_id : String
  pub date : ℕ
  pub daily_pnl : ℤ
  pub cumulative_pnl : Option ℤ
  pub high_water_mark : Option ℤ

pub record Alert : Type 0 where
  pub severity : Severity
  pub message : Message

-- reconciliation_heartbeat
pub data CycleStatus : Type 0 where
  cycle_ok cycle_mismatch cycle_error : CycleStatus

pub data Heartbeat : Type 0 where
  halt_beat : Message → String → Heartbeat
  cycle_beat : CycleStatus → ℕ → Heartbeat
