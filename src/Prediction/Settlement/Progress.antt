-- ===== src/Prediction/Settlement/Progress.antt =====
-- prediction_settlement.py: with final markets, one run leaves no bet due.
use mathlib.Core.Path.{subst}
use blackhole_network.Base.{
  ℕ, String, true, false, not, ◌&&◌, Option, some, List, [], ◌∷◌, ◌≡◌, ◌≢◌, refl, sym, All-map, ap,
  ◌∙◌, arith, All, ◌==◌, Option-cases, inl, inr,
}
use blackhole_network.Prediction.Types.{bet_open, Bet, Contract}
use blackhole_network.Prediction.Ticker.{parse_kalshi_weather_ticker}
use blackhole_network.Prediction.Outcome.{Outcome, fetch_kalshi_market_outcome}
use blackhole_network.Prediction.Payout.{compute_payout}
use blackhole_network.Prediction.Settlement.{
  Outside, Desk, Due, Tally, update_bet, update_contract_resolution, settle_known, settle_reported,
  look_up_report, find_contract, settle_answered, settle_one_bet, counted, settle_each,
  settleable_bets, settle_all_open_bets, disagrees,
}
use blackhole_network.Prediction.Settlement.Due.{bet_of, settleable_bets-All}
use blackhole_network.Prediction.Settlement.Steps.{look_up_report-bets}
use blackhole_network.Prediction.Settlement.Listed.{
  Listed, settleable_bets-Listed, Listed-update, Listed-done,
}

module _ (o : Outside)
    (final : (t : String)
      → (k : Outcome) × (fetch_kalshi_market_outcome (o.get_market t) ≡ some (some k)))
    (commits : (id : ℕ) → o.commits id ≡ true) where
  look_up_report-contracts :
      (ticker : String) (d : Desk) → (look_up_report o ticker d).1.contracts ≡ d.contracts
  unfolding look_up_report
  look_up_report-contracts ticker d = elim (Option-cases (parse_kalshi_weather_ticker ticker)) [
    | inl e ↦ rw (look_up_report, e) refl
    | inr (m, e) ↦
        rw (look_up_report, e)
          (elim (Option-cases (o.fetch_nws_cli m.station m.day)) [
            | inl f ↦ rw f refl
            | inr (r, f) ↦ rw f refl
          ])
  ]

  settle_known-final :
      (b : Bet) (nws : Option Outcome) (k : Outcome) (d : Desk)
      → b.entry_price ≢ 0
      → ((settle_known o b nws k d).1.bets
          ≡ update_bet b.id (compute_payout b.side b.stake b.entry_price k) d.bets)
        × ((settle_known o b nws k d).1.contracts
            ≡ update_contract_resolution b.contract_id k d.contracts)
  unfolding settle_known
  settle_known-final b nws k d n =
      let e : (not (disagrees nws k) && b.entry_price == 0) ≡ false = ground arith in
      rw (e, commits b.id) (refl, refl)

  settle_one_bet-final :
      (ticker : String) (b : Bet) (d : Desk)
      → b.entry_price ≢ 0
      → (k : Outcome) × ((settle_one_bet o ticker b d).1.bets
          ≡ update_bet b.id (compute_payout b.side b.stake b.entry_price k) d.bets)
        × ((settle_one_bet o ticker b d).1.contracts
            ≡ update_contract_resolution b.contract_id k d.contracts)
  unfolding settle_one_bet settle_answered settle_reported
  settle_one_bet-final ticker b d n =
      let (k, e) = final ticker in
      let (bets, contracts) =
        settle_known-final b (look_up_report o ticker d).0 k (look_up_report o ticker d).1 n in
      rw e (
        k,
        bets
            ∙ ap (update_bet b.id (compute_payout b.side b.stake b.entry_price k))
                (look_up_report-bets o ticker d),
        contracts
            ∙ ap (update_contract_resolution b.contract_id k) (look_up_report-contracts ticker d),
      )

  settle_each-done :
      (due : List Due) (t : Tally) (d : Desk)
      → All (λ x. (bet_of x).entry_price ≢ 0) due
      → Listed o.today d.contracts due d.bets
      → Listed o.today (settle_each o due t d).1.contracts [] (settle_each o due t d).1.bets
  unfolding settle_each
  settle_each-done [] t d n h = h
  settle_each-done ((day, ticker, b) ∷ rest) t d n h =
      let (r, d') = settle_one_bet o ticker b d in
      let (k, bets, contracts) = settle_one_bet-final ticker b d n.0 in
      let moved = Listed-update o.today b day ticker k d.contracts rest d.bets h in
      settle_each-done rest (counted r t) d' n.1 (
        subst (λ cs. Listed o.today cs rest d'.bets) (sym contracts)
          (subst
            (λ bs. Listed o.today (update_contract_resolution b.contract_id k d.contracts) rest bs)
            (sym bets) moved))

-- When the exchange answers a final outcome for every market, the updates commit and no bet was
-- entered at a price of 0, one run settles everything: no bet is left that a further run would take up.
pub settle_all_open_bets-clears :
    (o : Outside) (d : Desk)
    → ((t : String)
        → (k : Outcome) × (fetch_kalshi_market_outcome (o.get_market t) ≡ some (some k)))
    → ((id : ℕ) → o.commits id ≡ true)
    → All (λ b. b.entry_price ≢ 0) d.bets
    → settleable_bets o.today
        (settle_all_open_bets o d).1.contracts
        (settle_all_open_bets o d).1.bets
      ≡ []
unfolding settle_all_open_bets
settle_all_open_bets-clears o d final commits n =
    let due = settleable_bets o.today d.contracts d.bets in
    Listed-done o.today (settle_all_open_bets o d).1.contracts (settle_all_open_bets o d).1.bets (
      settle_each-done o final commits due _ d
        (settleable_bets-All (λ x. (bet_of x).entry_price ≢ 0) o.today d.contracts d.bets
          (All-map (λ b. b.entry_price ≢ 0)
            (λ b.
              b.status ≡ bet_open
              → (row : Contract) → find_contract b.contract_id d.contracts ≡ some row
              → (day : ℕ) → b.entry_price ≢ 0)
            d.bets (λ b k q row e day. k) n))
        (settleable_bets-Listed o.today d.contracts d.bets))
