-- ===== src/Monitor/Triggers/Rules.antt =====
-- weather_position_monitor.py: what makes a position be given up, and what a loss is taken to be.
use blackhole_network.Base.{
  ℕ, ◌*◌, Bool, true, false, ◌||◌, Option, none, some, is_some, ◌≡◌, ◌≢◌, refl, sym, ap, ◌∙◌, arith,
  ◌==◌, if◌then◌else◌,
}
use blackhole_network.Base.Int.{ℤ, pos, scale, ◌-ℤ◌, ◌+ℤ◌, leb_ℤ}
use blackhole_network.Prediction.Types.{Side, yes_side, no_side}
use blackhole_network.Monitor.Positions.{Position, entry_implied}
use blackhole_network.Monitor.Triggers.{
  loss_of, Settings, Trigger, effective_thresholds, dollar_loss, forecast_shift, shift_against,
  reaches, reaches_ℤ, tested, evaluated, evaluate_triggers,
}

-- Of a position with an entry price and a market price, and thresholds in force, one test decides:
-- it is given up exactly when the market moved against it by the threshold of the shift, or it lost
-- the threshold of the loss, or the forecast moved by the hard limit.
pub evaluate_triggers-decides :
    (g : Settings) (now : ℕ) (p : Position) (entry : ℤ) (mid prob dollar : ℕ)
    → p.entry_implied_prob ≡ some entry
    → p.current_yes_mid ≡ some mid
    → effective_thresholds g now p ≡ (some prob, dollar)
    → is_some (evaluate_triggers g now p) ≡ (
        leb_ℤ (pos prob) (shift_against p.side entry mid)
        || reaches_ℤ dollar (dollar_loss p)
        || reaches g.forecast_hard (forecast_shift p))
unfolding evaluate_triggers evaluated tested
evaluate_triggers-decides g now p entry mid prob dollar e m t =
    evaluated-at p.entry_implied_prob (effective_thresholds g now p) p.current_yes_mid e t m
  where
    three_tests :
        (a b c : Bool) (x y z : Trigger)
        → is_some (if a then some x else if b then some y else if c then some z else none)
          ≡ (a || b || c)
    three_tests true b c x y z = refl
    three_tests false true c x y z = refl
    three_tests false false true x y z = refl
    three_tests false false false x y z = refl

    evaluated-at :
        (en : Option ℤ) (pr : Option ℕ × ℕ) (mi : Option ℕ)
        → en ≡ some entry
        → pr ≡ (some prob, dollar)
        → mi ≡ some mid
        → is_some (evaluated g p en pr.0 mi pr.1) ≡ (
            leb_ℤ (pos prob) (shift_against p.side entry mid)
            || reaches_ℤ dollar (dollar_loss p)
            || reaches g.forecast_hard (forecast_shift p))
    evaluated-at en pr mi e t m =
        rw (e, t, m)
          (three_tests (leb_ℤ (pos prob) (shift_against p.side entry mid))
            (reaches_ℤ dollar (dollar_loss p)) (reaches g.forecast_hard (forecast_shift p)) _ _ _)

-- What the loss of a contract is off by.
abbrev pub bias : Side → ℕ → ℤ
bias yes_side price = pos 0
bias no_side price = pos 10000 -ℤ pos (2 * price)

yes_loss : (price mid : ℕ) → pos price -ℤ pos mid ≡ (pos price -ℤ pos mid) +ℤ pos 0
unfolding ◌-ℤ◌ ◌+ℤ◌
yes_loss price mid = ground arith

no_loss :
    (price mid : ℕ)
    → (pos 10000 -ℤ pos price) -ℤ (pos 10000 -ℤ pos mid)
      ≡ (pos mid -ℤ (pos 10000 -ℤ pos price)) +ℤ (pos 10000 -ℤ pos (2 * price))
unfolding ◌-ℤ◌ ◌+ℤ◌
no_loss price mid = ground arith

abbrev known : Option ℤ → ℤ
known none = pos 0
known (some x) = x

loss_of-shift :
    (side : Side) (contracts price mid : ℕ) (avg : Option ℕ) (now : Option ℕ) (entry : ℤ)
    → contracts ≢ 0
    → avg ≡ some price
    → now ≡ some mid
    → entry_implied side avg ≡ some entry
    → loss_of side contracts avg now
      ≡ some (scale contracts (shift_against side entry mid +ℤ bias side price))
loss_of-shift yes_side contracts price mid avg now entry n a m e =
    let v = ap known (sym (ap (entry_implied yes_side) a) ∙ e) in
    let held : (contracts == 0) ≡ false = ground arith in
    rw (a, m, held)
      (ap (λ x. some (scale contracts x))
        (yes_loss price mid ∙ ap (λ x. (x -ℤ pos mid) +ℤ pos 0) v))
loss_of-shift no_side contracts price mid avg now entry n a m e =
    let v = ap known (sym (ap (entry_implied no_side) a) ∙ e) in
    let held : (contracts == 0) ≡ false = ground arith in
    rw (a, m, held)
      (ap (λ x. some (scale contracts x))
        (no_loss price mid ∙ ap (λ x. (pos mid -ℤ x) +ℤ bias no_side price) v))

-- The loss of a position, set against the shift of the probability, which is what a contract lost
-- on either side: on the YES side it is the shift times the contracts; on the NO side each contract is
-- off by a dollar less twice its average price, so that it is right at an average of 50 cents alone.
pub dollar_loss-shift :
    (p : Position) (entry : ℤ) (price mid : ℕ)
    → p.contracts ≢ 0
    → p.avg_price ≡ some price
    → p.current_yes_mid ≡ some mid
    → entry_implied p.side p.avg_price ≡ some entry
    → dollar_loss p ≡ some (scale p.contracts (shift_against p.side entry mid +ℤ bias p.side price))
unfolding dollar_loss
dollar_loss-shift p entry price mid n a m e =
    loss_of-shift p.side p.contracts price mid p.avg_price p.current_yes_mid entry n a m e
