-- ===== src/Examples/Killswitch.antt =====
-- master_killswitch.py at concrete inputs.
use blackhole_network.Base.{true, false, none, [], ◌∷◌, ◌≡◌, ◌≢◌, refl}
use blackhole_network.Core.Types.{note, paused, halted, active, Message}
use blackhole_network.Core.World.{ok, raised, attribute_error, World}
use blackhole_network.Core.Lifecycle.{system_id}
use blackhole_network.Core.Gate.{should_run}
use blackhole_network.Core.Gate.Halted.{AllHalted}
use blackhole_network.Killswitch.Teardown.{flatten_all_positions}
use blackhole_network.Killswitch.Teardown.Tally.{HasTally, flatten_all_positions-HasTally}
use blackhole_network.Killswitch.Halt.{halt, reset}
use blackhole_network.Killswitch.Halt.Outcome.{halt-halts}
use blackhole_network.Killswitch.Halt.Audit.{halt-unaudited}
use blackhole_network.Killswitch.Halt.Reset.{AllActive, halt-reset}
use blackhole_network.Examples.Data.{env, answers, world, row}

abbrev why : Message
why = note "manual halt"

halt-halts_example :
    let w' = (halt env why "cli" true world).1 in
    AllHalted w'.strategies × ((should_run env "strat_6_nasdaq_long" false w').0 ≢ ok none)
halt-halts_example = halt-halts env why "cli" true world env "strat_6_nasdaq_long" false

halt-unaudited_example :
    let (r, w') = halt (answers false) why "cli" true world in
    (r ≡ raised attribute_error) × (w'.events ≡ world.events) × (w'.texts ≡ world.texts)
halt-unaudited_example = halt-unaudited (answers false) why "cli" true world refl

-- The system and a strategy halted, another paused.
abbrev stopped : World
stopped = record world {
  strategies =
      row system_id halted ∷ row "strat_6_nasdaq_long" halted ∷ row "strat_4_momentum" paused ∷ [];
}

halt-reset_example :
    AllActive (reset env true "fixed" (halt env why "cli" false world).1).1.strategies
halt-reset_example = halt-reset env why "cli" false "fixed" world (row system_id active) refl

flatten_all_positions-HasTally_example : HasTally 2 (flatten_all_positions env world).0
flatten_all_positions-HasTally_example = flatten_all_positions-HasTally env world
