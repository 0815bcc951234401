-- ===== src/Prediction/Window/Once.antt =====
-- prediction_signal.py: the orders of a window.
use mathlib.Core.Path.{subst}
use blackhole_network.Base.{
  String, Bool, true, false, List, [], ◌∷◌, eq_refl, ◌≡◌, ◌≢◌, refl, sym, ◌∙◌, ap, arith, All,
  All-map, Bool-cases, Option-cases, none, inl, inr,
}
use blackhole_network.Prediction.Types.{Side, Bet}
use blackhole_network.Prediction.Decision.{BetDecision, evaluate_decision}
use blackhole_network.Prediction.Window.{
  Order, Window, Surroundings, Payload, allocation_remaining_today, order_of, is_processed, act_on,
  on_market_update, run_window, new_window,
}
use blackhole_network.Prediction.Window.Acts.{on_market_update-acts}

abbrev pub DifferentTickers : List Order → Type 0
DifferentTickers [] = Unit
DifferentTickers (o ∷ os) = All (λ p. p.ticker ≢ o.ticker) os × DifferentTickers os

-- Every ticker ordered is marked, no two orders have one ticker, and a dry run has no orders.
abbrev IsOnce : Window → Type 0
IsOnce w =
    All (λ o. is_processed o.ticker w.processed_tickers ≡ true) w.orders
    × DifferentTickers w.orders
    × (w.dry_run ≡ true → w.orders ≡ [])

unmarked-differs :
    (a b : String) (ps : List String) → is_processed a ps ≡ true → is_processed b ps ≡ false → a ≢ b
unmarked-differs a b ps h k e =
    let both : true ≡ false = sym h ∙ ap (λ x. is_processed x ps) e ∙ k in absurd (ground arith)

marked-more :
    (t : String) (ps : List String) (os : List Order)
    → All (λ o. is_processed o.ticker ps ≡ true) os
    → All (λ o. is_processed o.ticker (t ∷ ps) ≡ true) os
marked-more t ps os h =
    All-map (λ o. is_processed o.ticker ps ≡ true) (λ o. is_processed o.ticker (t ∷ ps) ≡ true) os
      (λ o q. ground (arith, q)) h

-- No call of place_order raises.
abbrev pub Answers : Surroundings → Type 0
Answers s = (o : Order) → s.place_order o ≢ none

module _ (s : Surroundings) where
  act_on-IsOnce :
      (t : String) (side : Side) (e : BetDecision) (w : Window)
      → (w.dry_run ≡ false → Answers s)
      → IsOnce w
      → IsOnce (act_on s t side e w).1
  unfolding act_on
  act_on-IsOnce t side e w answers h = elim (Bool-cases (is_processed t w.processed_tickers)) [
    | inl f ↦ rw f h
    | inr f ↦ rw f (elim (Bool-cases w.dry_run) [
      | inl g ↦ rw g (marked-more t w.processed_tickers w.orders h.0, h.1, (λ d. h.2 g))
      | inr g ↦ rw g (elim (Option-cases (s.place_order (order_of t side e))) [
        | inl k ↦ absurd (answers g (order_of t side e) k)
        | inr (id, k) ↦ rw k (
          (rw (eq_refl t) refl, marked-more t w.processed_tickers w.orders h.0),
          (
            All-map (λ o. is_processed o.ticker w.processed_tickers ≡ true) (λ o. o.ticker ≢ t)
                w.orders (λ o q. unmarked-differs o.ticker t w.processed_tickers q f) h.0,
            h.1,
          ),
          λ d. absurd (ground arith),
        )
      ])
    ])
  ]

  on_market_update-IsOnce :
      (p : Payload) (w : Window)
      → (w.dry_run ≡ false → Answers s)
      → IsOnce w
      → IsOnce (on_market_update s p w).1
  on_market_update-IsOnce p w answers h = elim (on_market_update-acts s p w) [
    | inl q ↦ subst IsOnce (sym q) h
    | inr (est, cents, side, (good, q)) ↦ subst IsOnce (sym q) (
        act_on-IsOnce p.ticker side
          (evaluate_decision est cents (allocation_remaining_today s w.bets)) w answers h)
  ]

  act_on-dry :
      (t : String) (side : Side) (e : BetDecision) (w : Window)
      → (act_on s t side e w).1.dry_run ≡ w.dry_run
  unfolding act_on
  act_on-dry t side e w = elim (Bool-cases (is_processed t w.processed_tickers)) [
    | inl f ↦ rw f refl
    | inr f ↦ rw f (elim (Bool-cases w.dry_run) [
      | inl g ↦ rw g refl
      | inr g ↦ rw g (elim (Option-cases (s.place_order (order_of t side e))) [
        | inl k ↦ rw k refl
        | inr (id, k) ↦ rw k refl
      ])
    ])
  ]

  on_market_update-dry : (p : Payload) (w : Window) → (on_market_update s p w).1.dry_run ≡ w.dry_run
  on_market_update-dry p w = elim (on_market_update-acts s p w) [
    | inl q ↦ ap (λ x. x.dry_run) q
    | inr (est, cents, side, (good, q)) ↦
        ap (λ x. x.dry_run) q
        ∙ act_on-dry p.ticker side
            (evaluate_decision est cents (allocation_remaining_today s w.bets)) w
  ]

abbrev pub AllAnswer : List (Surroundings × Payload) → Type 0
AllAnswer = All (λ u. Answers u.0)

run_window-dry :
    (updates : List (Surroundings × Payload)) (w : Window)
    → (run_window updates w).dry_run ≡ w.dry_run
unfolding run_window
run_window-dry [] w = refl
run_window-dry ((s, p) ∷ rest) w =
    run_window-dry rest (on_market_update s p w).1 ∙ on_market_update-dry s p w

run_window-IsOnce :
    (updates : List (Surroundings × Payload)) (w : Window)
    → (w.dry_run ≡ false → AllAnswer updates)
    → IsOnce w
    → IsOnce (run_window updates w)
unfolding run_window
run_window-IsOnce [] w answers h = h
run_window-IsOnce ((s, p) ∷ rest) w answers h =
    run_window-IsOnce rest (on_market_update s p w).1
      (λ e. (answers (sym (on_market_update-dry s p w) ∙ e)).1)
      (on_market_update-IsOnce s p w (λ e. (answers e).0) h)

-- Where the window is a dry run or none of its calls of place_order raises, it calls place_order once
-- at most for a ticker, however often the price is updated and whatever the decisions and the
-- database answer; a dry run does not call it.
pub run_window-orders_once :
    (updates : List (Surroundings × Payload)) (dry_run : Bool) (bets : List Bet)
    → (dry_run ≡ false → AllAnswer updates)
    → DifferentTickers (run_window updates (new_window dry_run bets)).orders
      × (dry_run ≡ true → (run_window updates (new_window dry_run bets)).orders ≡ [])
run_window-orders_once updates dry_run bets answers =
    let (marked, differ, dry) =
      run_window-IsOnce updates (new_window dry_run bets) answers (tt, tt, λ e. refl) in
    (differ, λ e. dry (run_window-dry updates (new_window dry_run bets) ∙ e))

-- A call that raises is recorded, and marks nothing.
act_on-raises :
    (s : Surroundings) (t : String) (side : Side) (e : BetDecision) (w : Window)
    → w.dry_run ≡ false
    → is_processed t w.processed_tickers ≡ false
    → s.place_order (order_of t side e) ≡ none
    → (act_on s t side e w).1 ≡ record w { orders = order_of t side e ∷ w.orders }
unfolding act_on
act_on-raises s t side e w live fresh raises = rw fresh (rw live (rw raises refl))

-- A ticker whose call of place_order raised is not marked: the next update on which it is an
-- opportunity calls place_order again, also where the first order stands.
pub act_on-again :
    (s : Surroundings) (t : String) (side : Side) (e : BetDecision) (w : Window)
    → w.dry_run ≡ false
    → is_processed t w.processed_tickers ≡ false
    → s.place_order (order_of t side e) ≡ none
    → (act_on s t side e (act_on s t side e w).1).1.orders
      ≡ order_of t side e ∷ order_of t side e ∷ w.orders
act_on-again s t side e w live fresh raises =
    let next : Window = record w { orders = order_of t side e ∷ w.orders } in
    ap (λ x. (act_on s t side e x).1.orders) (act_on-raises s t side e w live fresh raises)
    ∙ ap (λ x. x.orders) (act_on-raises s t side e next live fresh raises)
