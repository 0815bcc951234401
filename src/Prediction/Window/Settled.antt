-- ===== src/Prediction/Window/Settled.antt =====
-- prediction_signal.py with prediction_settlement.py: the bets of a window, once their markets are final.
use mathlib.Core.Path.{subst}
use blackhole_network.Base.{
  ℕ, ◌<◌, String, true, Option, none, some, List, [], ◌∷◌, ◌++◌, ◌≡◌, ◌≢◌, sym, arith, All,
  Bool-cases, Option-cases, inl, inr,
}
use blackhole_network.Prediction.Types.{Side, Bet, Contract, Observation}
use blackhole_network.Prediction.Outcome.{Outcome, fetch_kalshi_market_outcome}
use blackhole_network.Prediction.Settlement.{
  Outside, Desk, Notice, settleable_bets, settle_all_open_bets,
}
use blackhole_network.Prediction.Settlement.Progress.{settle_all_open_bets-clears}
use blackhole_network.Prediction.Decision.{BetDecision, evaluate_decision}
use blackhole_network.Prediction.Decision.Bounds.{evaluate_decision-IsSound}
use blackhole_network.Prediction.Window.{
  Window, Surroundings, Payload, allocation_remaining_today, lookup_contract_db_id, bet_row,
  insert_weather_bet_row, order_of, is_processed, act_on, on_market_update, run_window,
}
use blackhole_network.Prediction.Window.Acts.{on_market_update-acts}

-- No bet was entered at a price of 0.
abbrev pub IsPriced : List Bet → Type 0
IsPriced bets = All (λ b. b.entry_price ≢ 0) bets

IsPriced-append :
    (bs : List Bet) (b : Bet) → IsPriced bs → b.entry_price ≢ 0 → IsPriced (bs ++ b ∷ [])
IsPriced-append [] b h n = (n, tt)
IsPriced-append (c ∷ cs) b h n = (h.0, IsPriced-append cs b h.1 n)

module _ (s : Surroundings) where
  insert_weather_bet_row-IsPriced :
      (c : Option ℕ) (side : Side) (e : BetDecision) (order : Option String) (bets : List Bet)
      → 0 < e.limit_price_cents
      → IsPriced bets
      → IsPriced (insert_weather_bet_row s c side e order bets)
  unfolding insert_weather_bet_row
  insert_weather_bet_row-IsPriced none side e order bets p h = h
  insert_weather_bet_row-IsPriced (some c) side e order bets p h = elim (Option-cases s.new_row) [
    | inl f ↦ rw f h
    | inr (id, f) ↦
        rw f
          (IsPriced-append bets (bet_row id c s.today side e order) h (λ z. absurd (ground arith)))
  ]

  act_on-IsPriced :
      (t : String) (side : Side) (e : BetDecision) (w : Window)
      → 0 < e.limit_price_cents
      → IsPriced w.bets
      → IsPriced (act_on s t side e w).1.bets
  unfolding act_on
  act_on-IsPriced t side e w p h =
      let row = λ (o : Option String).
        insert_weather_bet_row-IsPriced (lookup_contract_db_id s t) side e o w.bets p h in
      elim (Bool-cases (is_processed t w.processed_tickers)) [
        | inl f ↦ rw f h
        | inr f ↦ rw f (elim (Bool-cases w.dry_run) [
          | inl g ↦ rw g (row none)
          | inr g ↦ rw g (elim (Option-cases (s.place_order (order_of t side e))) [
            | inl k ↦ rw k h
            | inr (id, k) ↦ rw k (row id)
          ])
        ])
      ]

  on_market_update-IsPriced :
      (p : Payload) (w : Window) → IsPriced w.bets → IsPriced (on_market_update s p w).1.bets
  on_market_update-IsPriced p w h = elim (on_market_update-acts s p w) [
    | inl q ↦ subst (λ x. IsPriced x.bets) (sym q) h
    | inr (est, cents, side, (good, q)) ↦
        let left = allocation_remaining_today s w.bets in
        let sound = evaluate_decision-IsSound est cents left good in
        subst (λ x. IsPriced x.bets) (sym q)
          (act_on-IsPriced p.ticker side (evaluate_decision est cents left) w sound.8 h)
  ]

run_window-IsPriced :
    (updates : List (Surroundings × Payload)) (w : Window)
    → IsPriced w.bets
    → IsPriced (run_window updates w).bets
unfolding run_window
run_window-IsPriced [] w h = h
run_window-IsPriced ((s, p) ∷ rest) w h =
    run_window-IsPriced rest (on_market_update s p w).1 (on_market_update-IsPriced s p w h)

-- What a window bets is settled: over a table without entry prices of 0, whatever the updates of the
-- window insert, once the exchange answers a final outcome for every market and the updates commit,
-- one run of the settlement leaves no bet due.
pub run_window-settles :
    (updates : List (Surroundings × Payload)) (w : Window) (o : Outside) (contracts : List Contract)
    (observations : List Observation) (notices : List Notice)
    → IsPriced w.bets
    → ((t : String)
        → (k : Outcome) × (fetch_kalshi_market_outcome (o.get_market t) ≡ some (some k)))
    → ((id : ℕ) → o.commits id ≡ true)
    → let d : Desk = record {
      bets = (run_window updates w).bets;
      contracts = contracts;
      observations = observations;
      notices = notices;
    } in
      settleable_bets o.today
        (settle_all_open_bets o d).1.contracts
        (settle_all_open_bets o d).1.bets
      ≡ []
run_window-settles updates w o contracts observations notices h final commits =
    settle_all_open_bets-clears o
      (record {
        bets = (run_window updates w).bets;
        contracts = contracts;
        observations = observations;
        notices = notices;
      })
      final commits (run_window-IsPriced updates w h)
