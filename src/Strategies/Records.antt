-- ===== src/Strategies/Records.antt =====
-- The strategy programs on the records of the trades: paper_trades before and after a run.
use blackhole_network.Base.{ℕ, String, Bool, Option, List}
use blackhole_network.Core.World.{World, Env, Client, Result}
use blackhole_network.Core.Monad.Keeps.{Keeps}
use blackhole_network.Core.Trades.Invariant.{TradesValid}
use blackhole_network.Core.Trades.Lasting.{Lasting, Lasts}
use blackhole_network.Nasdaq.Signal.{RegressionScore, SpyState}
use blackhole_network.Nasdaq.Long as Long
use blackhole_network.Nasdaq.Long.Lasting as LongLasting
use blackhole_network.Nasdaq.Short as Short
use blackhole_network.Nasdaq.Short.Lasting as ShortLasting
use blackhole_network.Sector.Run as Sector
use blackhole_network.Sector.Run.Lasting as SectorLasting
use blackhole_network.Intraday.Run as Intraday
use blackhole_network.Momentum.Bars.{Bar, Rules}
use blackhole_network.Momentum.Run as Momentum
use blackhole_network.Value.Screen.{Answer}
use blackhole_network.Value.Run as Value
use blackhole_network.Value.Company.{Endpoint, Rules as ValueRules}
use blackhole_network.Value.Run.Lasting as ValueLasting
use blackhole_network.Momentum.Run.Entries as MomentumEntries
use blackhole_network.Intraday.Run.Lasting as IntradayLasting

-- The rows are valid, and every row that was closed is still there, with the same fields but for
-- its water mark.
abbrev pub Recorded : World → World → Type 0
Recorded w w' = TradesValid w'.trades × Lasts w.trades w'.trades

recorded :
    {A : Type 0} {m : World → Result A × World}
    → Keeps Lasting m
    → (w : World) → TradesValid w.trades
    → Recorded w (m w).1
recorded k w v = ((k.at w).valid v, (k.at w).lasts v)

-- A run of strategy 2, 4, 6, 7, 8 or 13, whatever is answered and wherever it fails, leaves a valid
-- paper_trades valid (unique ids below the next id, positive quantities and entry prices), and
-- every closed row in it with the same fields, but for its water mark.
pub every_main-Recorded :
    (env : Env) (scores : List RegressionScore) (spy : Option SpyState) (sqrt : ℕ → ℕ)
    (closes : Client → String → ℕ → Result (List ℕ)) (rsi : Option ℕ)
    (bars : Client → String → Result (List Bar)) (rules : Rules) (has_key : Bool)
    (fmp : Endpoint → ℕ → Answer) (year : Client → String → Result (List ℕ)) (figures : ValueRules)
    (w : World)
    → TradesValid w.trades
    → Recorded w (Long.main env scores w).1
      × Recorded w (Short.main env scores spy w).1
      × Recorded w (Sector.main env sqrt closes w).1
      × Recorded w (Intraday.main env rsi w).1
      × Recorded w (Momentum.main env bars rules w).1
      × Recorded w (Value.main env has_key fmp year figures w).1
every_main-Recorded env scores spy sqrt closes rsi bars rules has_key fmp year figures w v = (
  recorded (LongLasting.main-Lasting env scores) w v,
  recorded (ShortLasting.main-Lasting env scores spy) w v,
  recorded (SectorLasting.main-Lasting env sqrt closes) w v,
  recorded (IntradayLasting.main-Lasting env rsi) w v,
  recorded (MomentumEntries.main-Lasting env bars rules) w v,
  recorded (ValueLasting.main-Lasting env has_key fmp year figures) w v,
)
