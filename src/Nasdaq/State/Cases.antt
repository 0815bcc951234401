-- ===== src/Nasdaq/State/Cases.antt =====
-- nasdaq_state.py: the three states, told apart by the open trades.
use blackhole_network.Base.{String, true, false, List, [], ◌∷◌, any, elem, str_eq, ◌≡◌, ◌↔◌, arith}
use blackhole_network.Core.Types.{Trade}
use blackhole_network.Nasdaq.State.{flat, in_position, parked, park_ticker, state_of}

-- A strategy is flat exactly without open trades, and parked exactly where it has some, none of them
-- in a risk ticker and one in the parking fund; with any risk ticker it is in position.
pub state_of-decides :
    (risk_tickers : List String) (trades : List Trade)
    → let at_risk = any (λ t. elem t.ticker risk_tickers) trades in
      let in_fund = any (λ t. str_eq t.ticker park_ticker) trades in
      (state_of risk_tickers trades ≡ flat ↔ trades ≡ [])
      × (state_of risk_tickers trades ≡ parked ↔ (at_risk ≡ false) × (in_fund ≡ true))
      × (at_risk ≡ true → state_of risk_tickers trades ≡ in_position)
unfolding state_of
state_of-decides risk_tickers [] = (ground arith, ground arith, ground arith)
state_of-decides risk_tickers (t ∷ ts) = (ground arith, ground arith, ground arith)
