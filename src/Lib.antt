-- ===== src/Lib.antt =====
-- Verification library of the trading framework of BHN (scripts/trading/): the core that every strategy
-- program calls, the kill switch, the reconciliation daemon, six strategies on stocks and funds, the bets on
-- weather markets, and the stop-loss of their positions.
--
-- Parts, and the files that model them:
-- - Base (Base.antt, Base/): the names that the other modules share, Boolean tests on native numbers,
--   dicts as association lists in insertion order, signed integers, predicates on lists.
-- - Core (Core/): scripts/trading/trading_core.py. Types.antt has its enums and the rows of its tables;
--   World.antt the state, and Env, the answers of everything that is not in the repository;
--   Monad.antt the calls: a call takes the world and returns a value or an exception with the world
--   as it was left. Json.antt and Rules.antt: rules.json, load_rules, get_strategy_rules,
--   is_strategy_enabled, set_strategy_enabled. Sms.antt: parse_sms_toggle_command. Environ.antt:
--   _load_env. Clients.antt: get_alpaca, get_strategy_alpaca, iter_strategy_alpaca_clients. Lifecycle.antt:
--   the rows of trading_strategies. Breakers.antt: check_circuit_breakers, trip_breaker, reset_breaker. Gate.antt:
--   should_run. Trades.antt: log_signal, link_signal_to_trade, open_trade, close_trade,
--   get_open_trades. Orders.antt: place_order, equal_weight_size, compute_next_interval.
--   Reconcile.antt: reconcile_state. Halt.antt: halt_all_trading, handle_mismatch.
-- - Killswitch (Killswitch/): scripts/trading/master_killswitch.py. Teardown.antt: send_sms,
--   cancel_all_open_orders, flatten_all_positions. Halt.antt: get_halt_state,
--   record_killswitch_event, halt, reset. Both work on the world of Core, through its functions.
-- - Daemon (Daemon/): scripts/trading/reconciliation_daemon.py. Sources.antt: the three fetches.
--   Compare.antt: compare_pair, compare_three_sources. Cycle.antt: record_heartbeat and run_once, which
--   calls the kill switch's halt.
-- - Nasdaq (Nasdaq/): nasdaq_risk.py (Risk.antt), nasdaq_state.py (State.antt) and nasdaq_signal.py
--   (Signal.antt, and Overlay.antt for spy_200ma_state) of scripts/trading/. Run.antt: what
--   strategy_nasdaq_long.py and strategy_nasdaq_short.py both do, with their `main` around the cycle of
--   the strategy; Long.antt and Short.antt: the two cycles, over the trades, the gate and the orders of Core.
-- - Sector (Sector/): strategy 8. sector_signal.py: Indicators.antt, the indicators and score_ticker;
--   Signal.antt, evaluate_sector_signal. strategy_sector_rotation.py: Decision.antt, _decide_target
--   and _decide_weight; Run.antt, the risk checks, _do_rebalance and main.
-- - Intraday (Intraday/): strategy 13, strategy_rsi_intraday.py. Exits.antt: _evaluate_exit. Run.antt: the
--   risk checks, _do_signal_cycle and main.
-- - Momentum (Momentum/): strategy 4, strategy_momentum.py. Bars.antt: the averages, the crosses and the
--   size of a position. Run.antt: process_exits, process_entries and main.
-- - Value (Value/): strategy 2, strategy_value.py. Screen.antt: the figures of a company and the filter.
--   Company.antt: fmp_get and passes_buffett_filter over the universe. Run.antt: process_exits,
--   process_entries and main.
-- - Strategies (Strategies/): Entry.antt, main of strategies 2 and 4 up to the allocation, and the order of an
--   entry of strategy 2. Records.antt and Caps.antt: what holds of the strategy programs above, from the
--   files named Lasting.antt and Cap.antt, which go through each program call by call.
-- - Prediction (Prediction/): the bets on Kalshi weather markets. Types.antt: the rows of weather_bets,
--   prediction_contracts and weather_observations, and ContractMetadata. From
--   scripts/trading/prediction_signal.py: Ticker.antt, parse_kalshi_weather_ticker on the code points of an
--   ASCII text; Decision.antt, evaluate_decision after the model's estimate; Window.antt, the updates of a
--   PredictionSignal. From scripts/trading/prediction_settlement.py: Outcome.antt,
--   Payout.antt and Settlement.antt. The window writes
--   the rows that the settlement reads, and the settlement parses the tickers of the signal.
-- - Monitor (Monitor/): scripts/trading/weather_position_monitor.py. Positions.antt: the open positions
--   from the tables. Triggers.antt: evaluate_triggers and what it calls. Cycle.antt: the exit rows, the
--   messages, the sell orders and run_cycle.
-- - Examples (Examples/): the theorems at concrete inputs.
--
-- Conventions. Money is in ten-thousandths of a dollar, as in NUMERIC(12,4); a quotient is kept as
-- numerator and denominator, and a comparison of quotients is multiplied out. Each statement of the
-- source commits on its own, so what was written before an exception stays. Rows are never deleted,
-- so a serial id is the number of rows. A statement that breaks a CHECK or a foreign key raises;
-- the role may make every statement (the grants of the schema are not modelled), and no NUMERIC column overflows.
-- Texts that are only composed are constructors with the holes of the f-string. Each loop of the source
-- is over a list and is structural recursion; the poll for a fill counts its five tries down.
--
-- In Sector a score and a deviation are in millionths and rounded down, where the source has floats;
-- math.sqrt is a parameter on numbers in millionths squared. A weight is a fraction. The running
-- averages of the RSI are kept exact, over a power of the period. In Momentum a mean is a sum with
-- its period. An RSI of market_daily is in ten-thousandths. In Value a number of
-- JSON is m / 10^e; the answers of the FMP service are a parameter, an endpoint answers the same for a
-- whole run, a number given as a text counts as an error, rows are objects, and symbols are in capitals.
--
-- In Prediction, stakes and payouts are in cents, prices of a decision in cents and entry prices in
-- ten-thousandths; a probability is a fraction, so a comparison of the source's floats is exact here,
-- and a date is a number that is ordered as dates are. In Monitor prices are in ten-thousandths,
-- temperatures in tenths of a degree and times in seconds; a price in cents has at most two decimals.
-- A query or insert whose failure the source swallows fails where a flag of the model says so, and
-- else succeeds.
--
-- Not modelled: log files, the connection pool, advisory locks, the command lines, the VIX and the
-- market clock (a parameter), the broker, the SMS service and the files of credentials (parameters),
-- the regression behind the ranking, the estimate of the weather model (an argument of the decision),
-- kalshi_client (its answers are parameters, and a call that it repeats counts as one),
-- the download and the text of the NWS report (the call answers or finds nothing, it does not raise),
-- the figures in the alerts of a risk close,
-- the payload of the signals, the merge of rules.json over the defaults of strategies 2 and 4, and the other programs
-- of the repository. Env.has_json_safe stands for whether trading_core has the name json_safe, which
-- the kill switch uses, and Env.heartbeat_ok for whether the table of heartbeats has the columns that
-- the statements name.
pub mod Base
pub mod Core
pub mod Killswitch
pub mod Daemon
pub mod Nasdaq
pub mod Sector
pub mod Intraday
pub mod Momentum
pub mod Value
pub mod Strategies
pub mod Prediction
pub mod Monitor
pub mod Examples
