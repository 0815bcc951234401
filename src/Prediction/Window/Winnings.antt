-- ===== src/Prediction/Window/Winnings.antt =====
-- prediction_signal.py with prediction_settlement.py: what a bet of the window pays when it is won.
use blackhole_network.Base.{cancel, ℕ, ◌+◌, ◌*◌, ◌≤◌, ◌<◌, true, Option, ◌≡◌, arith, String}
use blackhole_network.Prediction.Types.{Side}
use blackhole_network.Prediction.Outcome.{Outcome}
use blackhole_network.Prediction.Payout.{wins, compute_payout}
use blackhole_network.Prediction.Payout.Amounts.{compute_payout-accounts}
use blackhole_network.Prediction.Decision.{Estimate, evaluate_decision}
use blackhole_network.Prediction.Decision.Bounds.{
  evaluate_decision-IsSound, evaluate_decision-whole,
}
use blackhole_network.Prediction.Window.{bet_row}

-- A stake that buys n contracts at q cents, with less than the price of one more to spare, pays
-- between n and n + 1 dollars.
dollars :
    (q s n p : ℕ)
    → 0 < q
    → q * n ≤ s
    → s < q * (n + 1)
    → 2 * (100 * q * p) ≤ 2 * (s * 10000) + 100 * q
    → 2 * (s * 10000) ≤ 2 * (100 * q * p) + 100 * q
    → (100 * n ≤ p) × (p ≤ 100 * (n + 1))
dollars q s n p h low high up down =
    let paid : 100 * q * p ≡ 100 * (q * p) = grind arith in
    let next : q * (n + 1) ≡ q * n + q = grind arith in
    let a : q * (200 * p + 100) ≡ 200 * (q * p) + 100 * q = grind arith in
    let b : q * (20000 * n) ≡ 20000 * (q * n) = grind arith in
    let c : q * (200 * p) ≡ 200 * (q * p) = grind arith in
    let d : q * (20000 * (n + 1) + 100) ≡ 20000 * (q * n) + 20100 * q = grind arith in
    let least = cancel q (20000 * n) (200 * p + 100) h (omega arith) in
    let most = cancel q (200 * p) (20000 * (n + 1) + 100) h (omega arith) in
    (omega arith, omega arith)

-- A bet that the window makes and its market then decides for it is settled at a dollar at least for
-- each contract that it bought, and at a dollar at most for one contract more.
pub bet_row-pays :
    (est : Estimate) (price allocation id contract day : ℕ) (side : Side) (order : Option String)
    (k : Outcome)
    → let e = evaluate_decision est price allocation in
      let b = bet_row id contract day side e order in
      e.is_opportunity ≡ true
      → wins b.side k ≡ true
      → let paid = (compute_payout b.side b.stake b.entry_price k).payout in
        (100 * e.contracts_to_buy ≤ paid) × (paid ≤ 100 * (e.contracts_to_buy + 1))
bet_row-pays est price allocation id contract day side order k h w =
    let e = evaluate_decision est price allocation in
    let (p, c, s, known, sure, steady, sided, favours, low, high, bought, cost, share) =
      evaluate_decision-IsSound est price allocation h in
    let (void, lost, won) =
      compute_payout-accounts side e.stake (100 * e.limit_price_cents) k (omega arith)
        (omega arith) in
    let paid = won w in
    dollars e.limit_price_cents e.stake e.contracts_to_buy _ low cost
      (evaluate_decision-whole est price allocation h) paid.1 paid.2
