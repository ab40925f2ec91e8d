-- ===== src/Tests/Path.antt =====
-- Runs of src/path.rs.
use rusty_fusion.Entity.Id.{Position}
use rusty_fusion.Error.{ok}
use rusty_fusion.Path.{PathPoint, Route, advance, arrive, done, tick, tick_in, waiting}
use rusty_fusion.Path.Following.{IsNext, IsOnPath, run, run-IsOnPath, run-waiting}
use rusty_fusion.Prelude.{Bool, List, [], arith, false, refl, true, ℕ, ◌∷◌, ◌≡◌}

abbrev at_x : ℕ → Position
at_x n = record { x = n; y = 0; z = 0 }

-- Every target is reached in one tick.
abbrev jump : Position → Position → ℕ → Position × Bool
jump source target speed = (target, true)

abbrev two_points : List PathPoint
two_points =
    record { pos = at_x 5; speed = 3; stop_ticks = 1 }
    ∷ record { pos = at_x 9; speed = 3; stop_ticks = 0 }
    ∷ []

abbrev halted : Route
halted = record { points = two_points; cycle = false; idx = 0; state = waiting 8 }

run-IsOnPath_example :
    (path' : Route) × (pos' : Position) × (run jump 11 halted (at_x 5) ≡ ok (path', pos'))
    × IsOnPath path'
run-IsOnPath_example = run-IsOnPath jump 11 halted (at_x 5) (omega arith)

run-waiting_example :
    (path' : Route) × (run jump 8 halted (at_x 5) ≡ ok (path', at_x 5)) × IsNext halted path'
run-waiting_example = run-waiting jump 7 halted (at_x 5) (omega arith) refl (omega arith)

-- The second point is the last, where the path is done.
ends :
    run jump 10 halted (at_x 5)
    ≡ ok (record { points = two_points; cycle = false; idx = 1; state = done }, at_x 9)
unfolding run tick tick_in advance arrive
ends = refl
