-- ===== src/Prediction/Window/Limits.antt =====
-- prediction_signal.py: the allocation of a day.
use mathlib.Core.Path.{subst}
use blackhole_network.Base.{
  ℕ, ◌+◌, ◌-◌, ◌*◌, ◌≤◌, String, true, Option, none, some, List, [], ◌∷◌, ◌++◌, ◌≡◌, refl, sym,
  arith, All, Bool-cases, Option-cases, inl, inr,
}
use blackhole_network.Prediction.Types.{Side, Bet}
use blackhole_network.Prediction.Decision.{BetDecision, evaluate_decision}
use blackhole_network.Prediction.Decision.Bounds.{evaluate_decision-bounded}
use blackhole_network.Prediction.Window.{
  Window, Surroundings, Payload, drawn_on, default_kalshi_allocation, allocation_remaining_today,
  lookup_contract_db_id, bet_row, insert_weather_bet_row, order_of, is_processed, act_on,
  on_market_update, run_window,
}
use blackhole_network.Prediction.Window.Acts.{on_market_update-acts}

drawn_on-append :
    (day : ℕ) (bs : List Bet) (b : Bet) → drawn_on day (bs ++ b ∷ []) ≤ drawn_on day bs + b.stake
unfolding drawn_on
drawn_on-append day [] b = ground arith
drawn_on-append day (c ∷ cs) b = let rest = drawn_on-append day cs b in omega arith

-- The open stakes of the day stay within the allocation.
abbrev pub IsWithin : ℕ → Window → Type 0
IsWithin day w = drawn_on day w.bets ≤ default_kalshi_allocation

module _ (s : Surroundings) where
  insert_weather_bet_row-draws :
      (c : Option ℕ) (side : Side) (e : BetDecision) (order : Option String) (bets : List Bet)
      → drawn_on s.today (insert_weather_bet_row s c side e order bets)
        ≤ drawn_on s.today bets + e.stake
  unfolding insert_weather_bet_row
  insert_weather_bet_row-draws none side e order bets = omega arith
  insert_weather_bet_row-draws (some c) side e order bets = elim (Option-cases s.new_row) [
    | inl f ↦ rw f (omega arith)
    | inr (id, f) ↦ rw f (drawn_on-append s.today bets (bet_row id c s.today side e order))
  ]

  act_on-draws :
      (t : String) (side : Side) (e : BetDecision) (w : Window)
      → drawn_on s.today (act_on s t side e w).1.bets ≤ drawn_on s.today w.bets + e.stake
  unfolding act_on
  act_on-draws t side e w =
      let row = λ (o : Option String).
        insert_weather_bet_row-draws (lookup_contract_db_id s t) side e o w.bets in
      elim (Bool-cases (is_processed t w.processed_tickers)) [
        | inl f ↦ rw f (omega arith)
        | inr f ↦ rw f (elim (Bool-cases w.dry_run) [
          | inl g ↦ rw g (row none)
          | inr g ↦ rw g (elim (Option-cases (s.place_order (order_of t side e))) [
            | inl h ↦ rw h (omega arith)
            | inr (id, h) ↦ rw h (row id)
          ])
        ])
      ]

  allocation-left :
      (bets : List Bet)
      → s.sums_stakes ≡ true
      → allocation_remaining_today s bets ≡ default_kalshi_allocation - drawn_on s.today bets
  unfolding allocation_remaining_today
  allocation-left bets r = rw r refl

  on_market_update-IsWithin :
      (p : Payload) (w : Window)
      → s.sums_stakes ≡ true
      → IsWithin s.today w
      → IsWithin s.today (on_market_update s p w).1
  on_market_update-IsWithin p w r h = elim (on_market_update-acts s p w) [
    | inl q ↦ subst (IsWithin s.today) (sym q) h
    | inr (est, cents, side, (good, q)) ↦
        let left = allocation_remaining_today s w.bets in
        let bound =
          subst (λ a. 5 * (evaluate_decision est cents left).stake ≤ a) (allocation-left w.bets r)
            (evaluate_decision-bounded est cents left) in
        subst (IsWithin s.today) (sym q) (
          within (evaluate_decision est cents left).stake (drawn_on s.today w.bets) _ h bound
            (act_on-draws p.ticker side (evaluate_decision est cents left) w))
  ]
    where
      within :
          (stake drawn drawn' : ℕ)
          → drawn ≤ 200000
          → 5 * stake ≤ 200000 - drawn
          → drawn' ≤ drawn + stake
          → drawn' ≤ 200000
      within stake drawn drawn' a b c = omega arith

-- The allocation of a day holds: if the open bets of the day draw at most $2000 before a window of
-- updates, and the sum of their stakes can be read at each update, they draw at most $2000 after it.
pub run_window-IsWithin :
    (day : ℕ) (updates : List (Surroundings × Payload)) (w : Window)
    → All (λ u. (u.0.today ≡ day) × (u.0.sums_stakes ≡ true)) updates
    → IsWithin day w
    → IsWithin day (run_window updates w)
unfolding run_window
run_window-IsWithin day [] w r h = h
run_window-IsWithin day ((s, p) ∷ rest) w r h =
    let w' = (on_market_update s p w).1 in
    let next = on_market_update-IsWithin s p w r.0.1 (subst (λ d. IsWithin d w) (sym r.0.0) h) in
    run_window-IsWithin day rest w' r.1 (subst (λ d. IsWithin d w') r.0.0 next)
