-- ===== src/Prediction/Settlement/Steps.antt =====
-- prediction_settlement.py: settling refines a small machine, in which an open bet is paid once.
use mathlib.Core.Path.{subst}
use blackhole_network.Base.{
  ℕ, String, not, ◌&&◌, Option, none, some, List, [], ◌∷◌, ◌≡◌, ◌≢◌, refl, sym, ap, ◌∙◌, arith, All,
  ◌==◌, Bool-cases, Option-cases, ◌⊎◌, inl, inr,
}
use blackhole_network.Prediction.Types.{Bet, bet_open, Contract}
use blackhole_network.Prediction.Settlement.Due.{
  IsCurrent, IsDue, bet_of, Distinct, UniqueIds, settleable_bets-IsDue, settleable_bets-Distinct,
}
use blackhole_network.Prediction.Ticker.{parse_kalshi_weather_ticker}
use blackhole_network.Prediction.Outcome.{Outcome, fetch_kalshi_market_outcome}
use blackhole_network.Prediction.Payout.{compute_payout}
use blackhole_network.Prediction.Settlement.{
  Outside, Desk, disagrees, Due, Tally, paid, update_bet, settle_known, settle_reported,
  look_up_report, find_contract, settle_answered, settle_one_bet, counted, settle_each,
  settleable_bets, settle_all_open_bets,
}

-- The market of a bet's contract has settled with this outcome.
abbrev pub MarketSays : Outside → List Contract → Bet → Outcome → Type 0
MarketSays o contracts b k =
    (row : Contract) × (find_contract b.contract_id contracts ≡ some row)
    × (fetch_kalshi_market_outcome (o.get_market row.ticker) ≡ some (some k))

-- A bet waits, or an open bet takes the payout of the outcome of its market.
pub data Settles (o : Outside) (contracts : List Contract) : Bet → Bet → Type 0 where
  waits : {b : Bet} → Settles o contracts b b
  pays :
      {b c : Bet} (k : Outcome)
      → MarketSays o contracts b k
      → b.status ≡ bet_open
      → c ≡ paid (compute_payout b.side b.stake b.entry_price k) b
      → Settles o contracts b c

pub data SettlesTo (o : Outside) (contracts : List Contract) : Bet → Bet → Type 0 where
  here : {b : Bet} → SettlesTo o contracts b b
  onward :
      {b c d : Bet}
      → Settles o contracts b c
      → SettlesTo o contracts c d
      → SettlesTo o contracts b d

-- The rows of two tables, one by one.
abbrev pub Rowwise : (Bet → Bet → Type 0) → List Bet → List Bet → Type 0
Rowwise R [] [] = Unit
Rowwise R [] (c ∷ cs) = ⊥
Rowwise R (b ∷ bs) [] = ⊥
Rowwise R (b ∷ bs) (c ∷ cs) = R b c × Rowwise R bs cs

module _ (o : Outside) (contracts : List Contract) where
  Rowwise-same : (bs : List Bet) → Rowwise (Settles o contracts) bs bs
  Rowwise-same [] = tt
  Rowwise-same (b ∷ bs) = (waits, Rowwise-same bs)

  Rowwise-here : (bs : List Bet) → Rowwise (SettlesTo o contracts) bs bs
  Rowwise-here [] = tt
  Rowwise-here (b ∷ bs) = (here, Rowwise-here bs)

  Rowwise-then :
      (bs cs ds : List Bet)
      → Rowwise (Settles o contracts) bs cs
      → Rowwise (SettlesTo o contracts) cs ds
      → Rowwise (SettlesTo o contracts) bs ds
  Rowwise-then [] [] ds h k = k
  Rowwise-then [] (c ∷ cs) ds h k = absurd h
  Rowwise-then (b ∷ bs) [] ds h k = absurd h
  Rowwise-then (b ∷ bs) (c ∷ cs) [] h k = k
  Rowwise-then (b ∷ bs) (c ∷ cs) (d ∷ ds) h k = (onward h.0 k.0, Rowwise-then bs cs ds h.1 k.1)

module _ (b : Bet) (k : Outcome) where
  abbrev after : List Bet → List Bet
  after bets = update_bet b.id (compute_payout b.side b.stake b.entry_price k) bets

  update_bet-steps :
      (o : Outside) (contracts : List Contract) (bets : List Bet)
      → MarketSays o contracts b k
      → IsCurrent bets b
      → Rowwise (Settles o contracts) bets (after bets)
  unfolding update_bet
  update_bet-steps o contracts [] says h = tt
  update_bet-steps o contracts (r ∷ rs) says h = (
    elim (Bool-cases (r.id == b.id)) [
      | inl e ↦
          let same : r ≡ b = h.1.0 (ground arith) in
          rw e (
            pays k (subst (λ x. MarketSays o contracts x k) (sym same) says)
              (ap (λ x. x.status) same ∙ h.0)
              (ap (λ x. paid (compute_payout x.side x.stake x.entry_price k) r) (sym same)))
      | inr e ↦ rw e waits
    ],
    update_bet-steps o contracts rs says (h.0, h.1.1),
  )

  update_bet-IsCurrent :
      (bets : List Bet) (c : Bet) → c.id ≢ b.id → IsCurrent bets c → IsCurrent (after bets) c
  unfolding update_bet
  update_bet-IsCurrent [] c n h = h
  update_bet-IsCurrent (r ∷ rs) c n h =
      let rest = update_bet-IsCurrent rs c n (h.0, h.1.1) in
      (
        h.0,
        (
          elim (Bool-cases (r.id == b.id)) [
            | inl e ↦ rw e (λ q. absurd (n (sym q ∙ ground arith)))
            | inr e ↦ rw e h.1.0
          ],
          rest.1,
        ),
      )

All-zip :
    (P Q R : Due → Type 0) (xs : List Due)
    → ((x : Due) → P x → Q x → R x)
    → All P xs
    → All Q xs
    → All R xs
All-zip P Q R [] f h k = tt
All-zip P Q R (x ∷ xs) f h k = (f x h.0 k.0, All-zip P Q R xs f h.1 k.1)

-- What one settlement does to the table of bets, by the answer of the market.
abbrev Effect : Option (Option Outcome) → Bet → List Bet → List Bet → Type 0
Effect r b bets bets' =
    (bets' ≡ bets) ⊎ ((k : Outcome) × (r ≡ some (some k)) × (bets' ≡ after b k bets))

module _ (o : Outside) where
  pub look_up_report-bets :
      (ticker : String) (d : Desk) → (look_up_report o ticker d).1.bets ≡ d.bets
  unfolding look_up_report
  look_up_report-bets ticker d = elim (Option-cases (parse_kalshi_weather_ticker ticker)) [
    | inl e ↦ rw (look_up_report, e) refl
    | inr (m, e) ↦
        rw (look_up_report, e)
          (elim (Option-cases (o.fetch_nws_cli m.station m.day)) [
            | inl f ↦ rw f refl
            | inr (r, f) ↦ rw f refl
          ])
  ]

  settle_known-Effect :
      (b : Bet) (nws : Option Outcome) (k : Outcome) (d : Desk)
      → Effect (some (some k)) b d.bets (settle_known o b nws k d).1.bets
  unfolding settle_known
  settle_known-Effect b nws k d = elim (Bool-cases (not (disagrees nws k) && b.entry_price == 0)) [
    | inl e ↦ rw e (inl refl)
    | inr e ↦ rw e (elim (Bool-cases (o.commits b.id)) [
      | inl c ↦ rw c (inr (k, refl, refl))
      | inr c ↦ rw c (inl refl)
    ])
  ]

  settle_reported-Effect :
      (b : Bet) (k : Option Outcome) (p : Option Outcome × Desk)
      → Effect (some k) b p.1.bets (settle_reported o b k p).1.bets
  unfolding settle_reported
  settle_reported-Effect b none (nws, d) = inl refl
  settle_reported-Effect b (some k) (nws, d) = settle_known-Effect b nws k d

  settle_answered-Effect :
      (ticker : String) (b : Bet) (d : Desk) (k : Option (Option Outcome))
      → Effect k b d.bets (settle_answered o ticker b d k).1.bets
  unfolding settle_answered
  settle_answered-Effect ticker b d none = inl refl
  settle_answered-Effect ticker b d (some k) =
      subst (λ bets. Effect (some k) b bets (settle_answered o ticker b d (some k)).1.bets)
        (look_up_report-bets ticker d) (settle_reported-Effect b k (look_up_report o ticker d))

  settle_one_bet-Effect :
      (ticker : String) (b : Bet) (d : Desk)
      → Effect
          (fetch_kalshi_market_outcome (o.get_market ticker))
          b
          d.bets
          (settle_one_bet o ticker b d).1.bets
  unfolding settle_one_bet
  settle_one_bet-Effect ticker b d = settle_answered-Effect ticker b d _

  Effect-steps :
      (contracts : List Contract) (day : ℕ) (ticker : String) (b : Bet) (bets bets' : List Bet)
      → Effect (fetch_kalshi_market_outcome (o.get_market ticker)) b bets bets'
      → IsDue contracts bets (day, ticker, b)
      → Rowwise (Settles o contracts) bets bets'
  Effect-steps contracts day ticker b bets bets' (inl e) h =
      subst (Rowwise (Settles o contracts) bets) (sym e) (Rowwise-same o contracts bets)
  Effect-steps contracts day ticker b bets bets' (inr (k, r, e)) (h, (row, found, same)) =
      let says = ap (λ t. fetch_kalshi_market_outcome (o.get_market t)) same ∙ r in
      subst (Rowwise (Settles o contracts) bets) (sym e)
        (update_bet-steps b k o contracts bets (row, found, says) h)

  Effect-IsCurrent :
      (r : Option (Option Outcome)) (b c : Bet) (bets bets' : List Bet)
      → Effect r b bets bets'
      → c.id ≢ b.id
      → IsCurrent bets c
      → IsCurrent bets' c
  Effect-IsCurrent r b c bets bets' (inl e) n h = subst (λ x. IsCurrent x c) (sym e) h
  Effect-IsCurrent r b c bets bets' (inr (k, q, e)) n h =
      subst (λ x. IsCurrent x c) (sym e) (update_bet-IsCurrent b k bets c n h)

  settle_each-steps :
      (contracts : List Contract) (due : List Due) (t : Tally) (d : Desk)
      → Distinct due
      → All (IsDue contracts d.bets) due
      → Rowwise (SettlesTo o contracts) d.bets (settle_each o due t d).1.bets
  unfolding settle_each
  settle_each-steps contracts [] t d u h = Rowwise-here o contracts d.bets
  settle_each-steps contracts ((day, ticker, b) ∷ rest) t d u h =
      let (r, d') = settle_one_bet o ticker b d in
      let eff = settle_one_bet-Effect ticker b d in
      let later =
        All-zip (λ y. (bet_of y).id ≢ b.id) (IsDue contracts d.bets) (IsDue contracts d'.bets) rest
          (λ y n c. (Effect-IsCurrent _ b (bet_of y) d.bets d'.bets eff n c.0, c.1)) u.0 h.1 in
      Rowwise-then o contracts d.bets d'.bets (settle_each o rest (counted r t) d').1.bets
        (Effect-steps contracts day ticker b d.bets d'.bets eff h.0)
        (settle_each-steps contracts rest (counted r t) d' u.1 later)

-- Settling a table of bets with unique ids takes every row through steps of the machine: a row is
-- left as it is, or, while it is open, takes once the payout of the outcome that the exchange gives
-- for the market of its contract; no row is added, dropped or reordered, whatever the exchange, the
-- weather service and the database answer.
pub settle_all_open_bets-refines :
    (o : Outside) (d : Desk)
    → UniqueIds d.bets
    → Rowwise (SettlesTo o d.contracts) d.bets (settle_all_open_bets o d).1.bets
unfolding settle_all_open_bets
settle_all_open_bets-refines o d u =
    settle_each-steps o d.contracts (settleable_bets o.today d.contracts d.bets) _ d
      (settleable_bets-Distinct o.today d.contracts d.bets u)
      (settleable_bets-IsDue o.today d.contracts d.bets u)
