-- ===== src/Fanout/Tests.antt =====
-- The reset line of reset_fanout.h over two pulses.
use qbox_platform.Prelude.{true, false, List, [], ◌∷◌, ◌≡◌}
use qbox_platform.Fanout.{Config, initial, Step, level, time, perform, run}
use qbox_platform.Fanout.Delivery.{levels, changes, changes_from, time_delivers}

abbrev config : Config
config = record { trace = true; trace_limit = 64 }

abbrev pulses : List Step
pulses = level true ∷ level true ∷ level false ∷ time ∷ time ∷ level false ∷ level true ∷ []

time_delivers_example :
    let s = perform config (run config initial pulses) time in
    (s.written ≡ true ∷ false ∷ true ∷ []) × (s.pending_resets ≡ [])
unfolding levels changes changes_from
time_delivers_example = time_delivers config pulses
