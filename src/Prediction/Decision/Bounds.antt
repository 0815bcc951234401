-- ===== src/Prediction/Decision/Bounds.antt =====
-- prediction_signal.py: what a stake and an opportunity are bounded by.
use blackhole_network.Base.{
  cancel, div-le, ℕ, zero, suc, ◌+◌, ◌-◌, ◌*◌, ◌/◌, ◌≤◌, ◌<◌, Bool, true, false, Option, none, some,
  is_some, ◌≡◌, refl, arith, ltb, leb, ◌==◌, Bool-cases, Option-cases, inl, inr, if◌then◌else◌, not,
  ◌&&◌, ◌||◌,
}
use mathlib.Core.Path.{subst}
use native.Mathlib.Nat.{div-add-mod, div-zero, mul-le-mul_left, mod-lt}
use blackhole_network.Prediction.Types.{Side, yes_side, no_side}
use blackhole_network.Prediction.Decision.{
  Ratio, Estimate, Stand, kelly_fraction_to_bet, stake_dollars_from_kelly, choose_side, reject,
  edge_of, decide, evaluate_decision,
}

-- A capped share of the allocation: 5 n ≤ 2 d gives A n / (2 d) ≤ A / 5.
capped_share : (a n d : ℕ) → 5 * n ≤ 2 * d → 5 * (a * n / (2 * d)) ≤ a
capped_share a n zero h = rw (div-zero (a * n)) (omega arith)
capped_share a n (suc d) h =
    let q = a * n / (2 * suc d) in
    let le = div-le (a * n) (2 * suc d) in
    let up : a * (5 * n) ≤ a * (2 * suc d) = mul-le-mul_left a h in
    let left : 2 * suc d * (5 * q) ≡ 5 * (2 * suc d * q) = grind arith in
    let right : 2 * suc d * a ≡ a * (2 * suc d) = grind arith in
    let right' : a * (5 * n) ≡ 5 * (a * n) = grind arith in
    cancel (2 * suc d) (5 * q) a (omega arith) (omega arith)

pub stake_dollars_from_kelly-bounded :
    (p : Ratio) (price allocation : ℕ)
    → 5 * stake_dollars_from_kelly p price allocation ≤ allocation
unfolding stake_dollars_from_kelly
stake_dollars_from_kelly-bounded p price allocation =
    let raw = kelly_fraction_to_bet p price in
    elim (Bool-cases (leb (5 * raw.n) (2 * raw.d))) [
      | inl e ↦ rw e (capped_share allocation raw.n raw.d (ground arith))
      | inr e ↦ rw e (div-le allocation 5)
    ]

reject-none :
    (s : Stand) (confidence : Option Ratio)
    → is_some (reject s confidence) ≡ false
    → (8 * s.model.d ≤ edge_of s) × ((c : Ratio) × (confidence ≡ some c) × (65 * c.d ≤ 100 * c.n))
unfolding reject
reject-none s none h = absurd (ground arith)
reject-none s (some c) h = (ground arith, (c, refl, ground arith))

-- A price of a dollar or more, or of nothing, buys nothing.
stake-outside :
    (p : Ratio) (price allocation : ℕ)
    → (leb 100 price || price == 0) ≡ true
    → stake_dollars_from_kelly p price allocation ≡ 0
unfolding stake_dollars_from_kelly kelly_fraction_to_bet
stake-outside p price allocation h = rw h (omega arith)

verdict-parts :
    (r : Bool) (c stake : ℕ)
    → (not r && leb 1 c && ltb 0 stake) ≡ true
    → (r ≡ false) × (1 ≤ c) × (0 < stake)
verdict-parts true c stake h = absurd (ground arith)
verdict-parts false c stake h = (refl, ground arith, ground arith)

bought-costs : (price stake : ℕ) → price * (if price == 0 then 0 else stake / price) ≤ stake
bought-costs price stake = elim (Bool-cases (price == 0)) [
  | inl e ↦ rw e (omega arith)
  | inr e ↦ rw e (div-le stake price)
]

inside : (price : ℕ) → (leb 100 price || price == 0) ≡ false → (0 < price) × (price < 100)
inside price h = (ground arith, ground arith)

decide_sound :
    (s : Stand) (confidence : Option Ratio) (allocation : ℕ)
    → let e = decide s confidence allocation in
      e.is_opportunity ≡ true
      → (8 * s.model.d ≤ edge_of s)
        × ((c : Ratio) × (confidence ≡ some c) × (65 * c.d ≤ 100 * c.n))
        × ((0 < s.price) × (s.price < 100))
        × (1 ≤ e.contracts_to_buy)
        × (s.price * e.contracts_to_buy ≤ e.stake)
unfolding decide
decide_sound s confidence allocation h =
    let stake = stake_dollars_from_kelly s.model s.price allocation in
    let (accepted, some_contract, paid) =
      verdict-parts (is_some (reject s confidence)) (if s.price == 0 then 0 else stake / s.price)
        stake h in
    let (edge, conf) = reject-none s confidence accepted in
    (
      edge,
      conf,
      elim (Bool-cases (leb 100 s.price || s.price == 0)) [
        | inl e ↦
            let z = stake-outside s.model s.price allocation e in
            let lost : 0 < 0 = subst (λ x. 0 < x) z paid in (omega arith, omega arith)
        | inr e ↦ inside s.price e
      ],
      some_contract,
      bought-costs s.price stake,
    )

-- The model gives the side that is bought at least eight cents more than its price.
abbrev pub Favours : Ratio → ℕ → Side → ℕ → Type 0
Favours p price yes_side limit = (limit ≡ price) × ((limit + 8) * p.d ≤ 100 * p.n)
Favours p price no_side limit = (limit ≡ 100 - price) × ((limit + 8) * p.d ≤ 100 * (p.d - p.n))

eight_cents : (n d q : ℕ) → 8 * d ≤ 100 * n - q * d → (q + 8) * d ≤ 100 * n
eight_cents n zero q h = omega arith
eight_cents n (suc d) q h =
    let whole : (q + 8) * suc d ≡ q * suc d + 8 * suc d = grind arith in omega arith

choose_side-Favours :
    (p : Ratio) (price : ℕ)
    → let s = choose_side p price in 8 * s.model.d ≤ edge_of s → Favours p price s.side s.price
unfolding choose_side
choose_side-Favours p price = elim (Bool-cases (leb (price * p.d) (100 * p.n))) [
  | inl e ↦ rw e (λ h. (refl, eight_cents p.n p.d price h))
  | inr e ↦ rw e (λ h. (refl, eight_cents (p.d - p.n) p.d (100 - price) h))
]

pub evaluate_decision-bounded :
    (est : Estimate) (price allocation : ℕ)
    → 5 * (evaluate_decision est price allocation).stake ≤ allocation
unfolding evaluate_decision
evaluate_decision-bounded est price allocation = elim (Option-cases est.probability) [
  | inl e ↦ rw e (omega arith)
  | inr (p, e) ↦ rw e (
      stake_dollars_from_kelly-bounded (choose_side p price).model (choose_side p price).price
        allocation)
]

-- An opportunity is a sound bet: there is a forecast, and its confidence is at least 0.65; the model
-- gives the side that is bought at least eight cents a dollar more than the limit price, which is a
-- price strictly between nothing and a dollar; at least one contract is bought, the contracts at
-- the limit price cost no more than the stake, and the stake is at most a fifth of the allocation.
pub evaluate_decision-IsSound :
    (est : Estimate) (price allocation : ℕ)
    → let e = evaluate_decision est price allocation in
      e.is_opportunity ≡ true
      → (p : Ratio) × (c : Ratio) × (side : Side) × (est.probability ≡ some p)
        × (est.confidence ≡ some c)
        × (65 * c.d ≤ 100 * c.n)
        × (e.side ≡ some side)
        × Favours p price side e.limit_price_cents
        × (0 < e.limit_price_cents)
        × (e.limit_price_cents < 100)
        × (1 ≤ e.contracts_to_buy)
        × (e.limit_price_cents * e.contracts_to_buy ≤ e.stake)
        × (5 * e.stake ≤ allocation)
unfolding evaluate_decision
evaluate_decision-IsSound est price allocation = elim (Option-cases est.probability) [
  | inl e ↦ rw e (λ h. absurd (ground arith))
  | inr (p, e) ↦ rw e (λ h.
      let s = choose_side p price in
      let (edge, (c, known, sure), (low, high), bought, cost) =
        decide_sound s est.confidence allocation h in
      (
        p,
        c,
        s.side,
        refl,
        known,
        sure,
        refl,
        choose_side-Favours p price edge,
        low,
        high,
        bought,
        cost,
        stake_dollars_from_kelly-bounded s.model s.price allocation,
      ))
]

one-more-costs :
    (price stake : ℕ) → 0 < price → stake < price * ((if price == 0 then 0 else stake / price) + 1)
one-more-costs price stake h = elim (Bool-cases (price == 0)) [
  | inl e ↦ absurd (ground arith)
  | inr e ↦
      let whole = div-add-mod stake price in
      let small = mod-lt stake h in
      let opened : price * (stake / price + 1) ≡ price * (stake / price) + price = grind arith in
      rw e (omega arith)
]

pub evaluate_decision-whole :
    (est : Estimate) (price allocation : ℕ)
    → let e = evaluate_decision est price allocation in
      e.is_opportunity ≡ true → e.stake < e.limit_price_cents * (e.contracts_to_buy + 1)
unfolding evaluate_decision
evaluate_decision-whole est price allocation = elim (Option-cases est.probability) [
  | inl e ↦ rw e (λ h. absurd (ground arith))
  | inr (p, e) ↦ rw e (λ h.
      let s = choose_side p price in
      one-more-costs s.price (stake_dollars_from_kelly s.model s.price allocation)
        (decide_sound s est.confidence allocation h).2.0)
]
