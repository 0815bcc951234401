-- ===== src/Sector/Signal.antt =====
-- scripts/trading/sector_signal.py: the bars of the universe, the ranking of the scores, and SPY
-- against its average. What the broker answers for the bars is an argument.
pub mod Best
pub mod Lasting
use blackhole_network.Base.{
  ℕ, ◌+◌, String, Bool, Option, none, some, List, [], ◌∷◌, get, put, last_value, str_eq,
  if◌then◌else◌,
}
use blackhole_network.Base.Int.{ℤ, ltb_ℤ}
use blackhole_network.Core.World.{Env, Client, Result}
use blackhole_network.Core.Monad.{Call, pass, answer, try_except, ◌>>=◌}
use blackhole_network.Core.Clients.{get_alpaca}
use blackhole_network.Sector.Indicators.{SectorScore, roc_slow_period, sma, above, score_ticker}

-- UNIVERSE_SECTOR
abbrev pub universe_sector : List String
universe_sector = "SOXL" ∷ "TECL" ∷ "TQQQ" ∷ "FAS" ∷ "ERX" ∷ "UUP" ∷ "TMF" ∷ "BIL" ∷ []

abbrev pub safe_ticker : String
safe_ticker = "BIL"

abbrev pub benchmark_ticker : String
benchmark_ticker = "SPY"

abbrev pub spy_sma_period : ℕ
spy_sma_period = 200

abbrev pub Scores : Type 0
Scores = List (String × SectorScore)

pub record SectorSignal : Type 0 where
  pub scores : Scores
  pub sorted_assets : List (String × ℤ)
  pub best_asset : Option String
  pub best_score : Option ℤ
  pub spy_trend : Option Bool

-- sorted(scores.items(), key=lambda kv: kv[1].final_score, reverse=True), which is stable
pub insert_asset : String × ℤ → List (String × ℤ) → List (String × ℤ)
insert_asset a [] = a ∷ []
insert_asset (k, s) ((j, t) ∷ rest) =
    if ltb_ℤ s t then (j, t) ∷ insert_asset (k, s) rest else (k, s) ∷ (j, t) ∷ rest

pub sort_assets : Scores → List (String × ℤ)
unfolding insert_asset
sort_assets [] = []
sort_assets ((k, s) ∷ rest) = insert_asset (k, s.final_score) (sort_assets rest)

abbrev best_of : List (String × ℤ) → Option String
best_of [] = none
best_of ((k, s) ∷ rest) = some k

abbrev best_score_of : List (String × ℤ) → Option ℤ
best_score_of [] = none
best_score_of ((k, s) ∷ rest) = some s

abbrev trend : ℕ → Option (ℕ × ℕ) → Option Bool
trend close none = none
trend close (some mean) = some (above close mean)

abbrev spy_trend_of : Option (List ℕ) → Option Bool
spy_trend_of none = none
spy_trend_of (some closes) = trend (last_value closes) (sma closes spy_sma_period)

-- What `evaluate_sector_signal` makes of the scores and of SPY's closes.
unfoldable pub signal_of : Scores → Option (List ℕ) → SectorSignal
unfolding sort_assets
signal_of scores spy =
    let ranked = sort_assets scores in
    record {
      scores = scores;
      sorted_assets = ranked;
      best_asset = best_of ranked;
      best_score = best_score_of ranked;
      spy_trend = spy_trend_of spy;
    }

abbrev not_empty : List ℕ → Option (List ℕ)
not_empty [] = none
not_empty (x ∷ xs) = some (x ∷ xs)

abbrev with_score : String → Option SectorScore → Scores → Scores
with_score ticker none scores = scores
with_score ticker (some s) scores = put ticker s scores

module _ (env : Env) (sqrt : ℕ → ℕ) (bars : Client → String → ℕ → Result (List ℕ)) where
  -- The client is made outside the `try`.
  pub fetch_daily_closes : String → ℕ → Call (Option (List ℕ))
  fetch_daily_closes ticker n = do
    client ← get_alpaca env
    try_except (answer (bars client ticker n) >>= λ closes. pass (not_empty closes))
        (λ e. pass none)

  abbrev score_closes : Option (List ℕ) → Option SectorScore
  score_closes none = none
  score_closes (some closes) = score_ticker sqrt closes

  pub score_each : List String → Scores → Call Scores
  unfolding fetch_daily_closes
  score_each [] scores = pass scores
  score_each (ticker ∷ tickers) scores =
      if str_eq ticker safe_ticker then score_each tickers scores else (do
        closes ← fetch_daily_closes ticker (roc_slow_period + 5)
        score_each tickers (with_score ticker (score_closes closes) scores))

  unfoldable pub evaluate_sector_signal : Call SectorSignal
  evaluate_sector_signal = do
    scores ← score_each universe_sector []
    spy ← fetch_daily_closes benchmark_ticker (spy_sma_period + 10)
    pass (signal_of scores spy)
