-- ===== src/Sector/Signal/Lasting.antt =====
-- sector_signal.py: fetching and scoring leaves paper_trades alone.
use blackhole_network.Base.{ℕ, String, List, [], ◌∷◌}
use blackhole_network.Core.World.{Env, Client, Result}
use blackhole_network.Core.Monad.Keeps.{Keeps}
use blackhole_network.Core.Trades.Lasting.{Lasting}
use blackhole_network.Core.Orders.Lasting.{lasting_rules}
use blackhole_network.Sector.Signal.{Scores, fetch_daily_closes, score_each, evaluate_sector_signal}

module _ (env : Env) (sqrt : ℕ → ℕ) (bars : Client → String → ℕ → Result (List ℕ)) where
  fetch_daily_closes-Lasting :
      (ticker : String) (n : ℕ) → Keeps Lasting (fetch_daily_closes env sqrt bars ticker n)
  unfolding fetch_daily_closes
  fetch_daily_closes-Lasting ticker n = search lasting_rules depth 20

  score_each-Lasting :
      (tickers : List String) (scores : Scores)
      → Keeps Lasting (score_each env sqrt bars tickers scores)
  unfolding score_each
  score_each-Lasting [] scores = search lasting_rules
  score_each-Lasting (ticker ∷ tickers) scores =
      search (lasting_rules, fetch_daily_closes-Lasting, score_each-Lasting tickers) depth 20

  pub evaluate_sector_signal-Lasting : Keeps Lasting (evaluate_sector_signal env sqrt bars)
  unfolding evaluate_sector_signal
  evaluate_sector_signal-Lasting =
      search (lasting_rules, score_each-Lasting, fetch_daily_closes-Lasting)
