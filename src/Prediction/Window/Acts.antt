-- ===== src/Prediction/Window/Acts.antt =====
-- prediction_signal.py: what one price update does to the window.
use blackhole_network.Base.{
  ℕ, String, Bool, true, false, Option, none, some, ◌≡◌, refl, ap, Option-cases, ◌⊎◌, inl, inr,
  if◌then◌else◌,
}
use blackhole_network.Prediction.Types.{Side, Metadata}
use blackhole_network.Prediction.Ticker.{parse_kalshi_weather_ticker}
use blackhole_network.Prediction.Decision.{Estimate, BetDecision, evaluate_decision}
use blackhole_network.Prediction.Window.{
  Window, Surroundings, Payload, allocation_remaining_today, not_opportunity, act_on, judged,
  quoted, on_market_update,
}

pub if-cases {ℓ} :
    {A : Type ℓ} (b : Bool) (x y : A)
    → ((b ≡ true) × ((if b then x else y) ≡ x)) ⊎ ((if b then x else y) ≡ y)
if-cases true x y = inl (refl, refl)
if-cases false x y = inr refl

module _ (s : Surroundings) where
  -- An update leaves the window as it is or acts on the decision of a forecast.
  abbrev pub Acted : String → Window → Window → Type 0
  Acted t w w' =
      (est : Estimate) × (cents : ℕ) × (side : Side) × let e =
          evaluate_decision est cents (allocation_remaining_today s w.bets) in
        (e.is_opportunity ≡ true) × (w' ≡ (act_on s t side e w).1)

  quoted-acts :
      (t : String) (cents : ℕ) (w : Window) (m : Option Metadata)
      → ((quoted s t cents w m).1 ≡ w) ⊎ Acted t w (quoted s t cents w m).1
  unfolding quoted judged
  quoted-acts t cents w none = inl refl
  quoted-acts t cents w (some m) = by_side e.side
    where
      e : BetDecision
      e = evaluate_decision (s.estimate m) cents (allocation_remaining_today s w.bets)

      by_side :
          (side : Option Side) → ((judged s t w e side).1 ≡ w) ⊎ Acted t w (judged s t w e side).1
      by_side none = inl refl
      by_side (some side) =
          elim (if-cases e.is_opportunity (act_on s t side e w) (not_opportunity e.rejection, w)) [
            | inl (good, f) ↦ inr (s.estimate m, cents, side, (good, ap (λ x. x.1) f))
            | inr f ↦ inl (ap (λ x. x.1) f)
          ]

  pub on_market_update-acts :
      (p : Payload) (w : Window)
      → ((on_market_update s p w).1 ≡ w) ⊎ Acted p.ticker w (on_market_update s p w).1
  unfolding on_market_update
  on_market_update-acts p w = elim (Option-cases p.best_yes_cents) [
    | inl e ↦ rw e (inl refl)
    | inr (cents, e) ↦ rw e (quoted-acts p.ticker cents w (parse_kalshi_weather_ticker p.ticker))
  ]
