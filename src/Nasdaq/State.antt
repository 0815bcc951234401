-- ===== src/Nasdaq/State.antt =====
-- scripts/trading/nasdaq_state.py: the state of strategies 6 and 7, read off the open trades.
pub mod Cases
use blackhole_network.Base.{String, some, List, [], ◌∷◌, any, elem, str_eq, if◌then◌else◌}
use blackhole_network.Core.Types.{Trade}
use blackhole_network.Core.Monad.{Call, pass, ◌>>=◌}
use blackhole_network.Core.Trades.{get_open_trades}

pub data NasdaqState : Type 0 where
  flat in_position parked : NasdaqState

-- PARK_TICKER
abbrev pub park_ticker : String
park_ticker = "JPST"

unfoldable pub state_of : List String → List Trade → NasdaqState
state_of risk_tickers [] = flat
state_of risk_tickers (t ∷ ts) =
    if any (λ u. elem u.ticker risk_tickers) (t ∷ ts)
    then in_position
    else if any (λ u. str_eq u.ticker park_ticker) (t ∷ ts)
    then parked
    else in_position

unfoldable pub derive_state : String → List String → Call (NasdaqState × List Trade)
unfolding state_of
derive_state sid risk_tickers =
    get_open_trades (some sid) >>= λ trades. pass (state_of risk_tickers trades, trades)
