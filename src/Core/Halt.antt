-- ===== src/Core/Halt.antt =====
-- trading_core.py: `halt_all_trading`, and what a mismatch sets off.
use blackhole_network.Base.{ℕ, true, none, List, [], ◌∷◌, if◌then◌else◌}
use blackhole_network.Core.Types.{
  halted, Message, mismatch_reason, mismatch_halt, mismatch_alert, Mismatch, Strategy, BreakerEvent,
  of_status, reconciliation, of_mismatch, system_scope,
}
use blackhole_network.Core.Monad.{Call, write, ◌>>=◌, ◌>>◌}
use blackhole_network.Core.Lifecycle.{is_halted}
use blackhole_network.Core.Breakers.{insert_event, send_alert}

-- `UPDATE trading_strategies SET status = 'halted' WHERE status != 'halted'`
unfoldable pub halt_rows : Message → List Strategy → List Strategy
halt_rows why [] = []
halt_rows why (s ∷ ss) =
    (if is_halted s.status then s else record s { status = halted; reason = why })
    ∷ halt_rows why ss

unfoldable pub halt_all_trading : Message → Call (Unit {0})
halt_all_trading why = write (λ w. record w { strategies = halt_rows why w.strategies })

abbrev pub mismatch_event : Mismatch → ℕ → BreakerEvent
mismatch_event m id = record {
  id = id;
  event_class = reconciliation;
  event_type = of_mismatch m.kind;
  severity = of_status halted;
  strategy_id = m.strategy_id;
  affects_scope = system_scope;
  reason = mismatch_reason m.kind m.ticker;
  halt_triggered = true;
  resolved_by = none;
}

abbrev pub halt_on : Mismatch → ℕ → Call (Unit {0})
unfolding halt_all_trading send_alert
halt_on m log_id =
    halt_all_trading (mismatch_halt m.kind m.ticker)
    >> send_alert (of_status halted) (mismatch_alert m.kind m.ticker)

unfoldable pub handle_mismatch : Mismatch → Call (Unit {0})
unfolding insert_event
handle_mismatch m = insert_event (mismatch_event m) >>= halt_on m
