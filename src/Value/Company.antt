-- ===== src/Value/Company.antt =====
-- scripts/trading/strategy_value.py: the rules, the calls of the FMP service, and passes_buffett_filter over
-- the universe. An endpoint answers the same for the whole run. Symbols are in capitals, which
-- `upper` leaves alone.
pub mod Keeps
use blackhole_network.Base.{
  ℕ, ◌+◌, ◌-◌, ◌*◌, ◌/◌, String, Bool, true, false, not, Option, none, some, List, [], ◌∷◌, ◌++◌,
  map, length, elem, take_first, leb, str_eq, ◌==◌, if◌then◌else◌,
}
use blackhole_network.Core.Types.{
  ExitReason, time_exit, stop_loss, target, buy, sell, error, note, signal_text, Trade,
}
use blackhole_network.Core.World.{
  Env, Client, Result, Order, Json, Fields, Items, str, obj, arr, nil, cons, division_by_zero,
}
use blackhole_network.Core.Monad.{Call, pass, answer, raise_if, try_except, ◌>>=◌, ◌>>◌}
use blackhole_network.Core.Json.{lookup, truth}
use blackhole_network.Core.Lifecycle.{update_strategy_status}
use blackhole_network.Core.Clients.{load_env, get_alpaca}
use blackhole_network.Core.Trades.{Ticket, log_signal, get_open_trades, close_trade}
use blackhole_network.Core.Orders.{submit_order}
use blackhole_network.Nasdaq.Run.{guarded}
use blackhole_network.Strategies.Entry.{order_or_log, run_with_rules}
use blackhole_network.Value.Screen.{
  Figure, lt, Answer, Filters, fetched, first_row, float_of, pe_of, pb_of, roe_of, compute_de_ratio,
  decline_of, declined, ratios_pass,
}

-- The stop is a fraction of at most 1; periods count days.
pub record Rules : Type 0 where
  pub universe : List String
  pub filters : Filters
  pub hold_days : ℕ
  pub stop_loss_pct : ℕ × ℕ
  pub pe_target_max : Figure
  pub max_positions : ℕ

pub data Endpoint : Type 0 where
  profile ratios_ttm balance_sheet : String → Endpoint
  earning_calendar : Endpoint

abbrev pub Candidate : Type 0
Candidate = String × Figure

-- The symbols of the rows that have one.
abbrev symbol_of : Json → List String
symbol_of (obj fs) = elim (lookup "symbol" fs) [
  | some (str s) ↦ if str_eq s "" then [] else s ∷ []
  | _ ↦ []
]
symbol_of _ = []

abbrev symbols : Items → List String
symbols nil = []
symbols (cons row rest) = symbol_of row ++ symbols rest

abbrev pub symbols_of : Option Json → List String
symbols_of (some (arr rows)) = symbols rows
symbols_of _ = []

-- qualifying.sort(key=lambda c: c["pe"]), which is stable
pub insert_qualifying : Candidate → List Candidate → List Candidate
insert_qualifying c [] = c ∷ []
insert_qualifying (k, p) ((j, q) ∷ rest) =
    if lt q p then (j, q) ∷ insert_qualifying (k, p) rest else (k, p) ∷ (j, q) ∷ rest

pub sort_qualifying : List Candidate → List Candidate
sort_qualifying [] = []
sort_qualifying (c ∷ cs) = insert_qualifying c (sort_qualifying cs)

module _ (env : Env) (has_key : Bool) (fmp : Endpoint → ℕ → Answer)
    (bars : Client → String → Result (List ℕ)) (rules : Rules) where
  pub fmp_get : Endpoint → Call (Option Json)
  fmp_get endpoint = load_env >>= λ core. pass (if has_key then fetched (fmp endpoint) else none)

  abbrev pub get_row : Endpoint → Call (Option Fields)
  get_row endpoint = fmp_get endpoint >>= λ data_. pass (first_row data_)

  -- The client is made outside the `try`.
  pub get_52w_decline_pct : String → Call (Option (ℕ × ℕ))
  get_52w_decline_pct ticker = do
    client ← get_alpaca env
    try_except (answer (bars client ticker) >>= λ closes. pass (decline_of closes)) (λ e. pass none)

  abbrev with_ratio :
      String → Figure → Figure → Figure → Option (Figure × Figure) → Call (Option Candidate)
  with_ratio ticker pe pb roe none = pass none
  with_ratio ticker pe pb roe (some de) =
      if ratios_pass rules.filters pe pb roe de
      then (get_52w_decline_pct ticker >>= λ fall.
          pass
            (if declined fall rules.filters.decline_52w_min_pct then some (ticker, pe) else none))
      else pass none

  abbrev with_balance : String → Figure → Figure → Figure → Option Fields → Call (Option Candidate)
  with_balance ticker pe pb roe none = pass none
  with_balance ticker pe pb roe (some bs) = with_ratio ticker pe pb roe (compute_de_ratio bs)

  abbrev with_figures :
      String → Option Figure → Option Figure → Option Figure → Call (Option Candidate)
  with_figures ticker (some pe) (some pb) (some roe) =
      get_row (balance_sheet ticker) >>= with_balance ticker pe pb roe
  with_figures ticker _ _ _ = pass none

  abbrev with_ratios : String → Option Fields → Call (Option Candidate)
  with_ratios ticker none = pass none
  with_ratios ticker (some r) =
      with_figures ticker (float_of (pe_of r)) (float_of (pb_of r)) (float_of (roe_of r))

  abbrev with_profile : String → Option Fields → Call (Option Candidate)
  with_profile ticker none = pass none
  with_profile ticker (some p) =
      if truth (obj p) then (get_row (ratios_ttm ticker) >>= with_ratios ticker) else pass none

  pub passes_buffett_filter : String → List String → Call (Option Candidate)
  passes_buffett_filter ticker upcoming =
      if elem ticker upcoming then pass none else (get_row (profile ticker) >>= with_profile ticker)

  abbrev adjoin : Option Candidate → List Candidate → List Candidate
  adjoin none found = found
  adjoin (some c) found = found ++ c ∷ []

  pub qualify : List String → List String → List String → List Candidate → Call (List Candidate)
  qualify upcoming held [] found = pass found
  qualify upcoming held (ticker ∷ tickers) found =
      if elem ticker held then qualify upcoming held tickers found else (do
        c ← passes_buffett_filter ticker upcoming
        qualify upcoming held tickers (adjoin c found))
