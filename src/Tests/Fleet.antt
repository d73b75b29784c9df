-- ===== src/Tests/Fleet.antt =====
-- The concurrent test run of go/src/test-suite/test_run.go with one package and one client.
use package_index.Base.{ℕ, none, some, [], ◌∷◌, ◌≡◌, ◌⊎◌, refl, arith}
use package_index.Index.Graph.{Graph}
use package_index.Suite.Run.Verify.{answer}
use package_index.Suite.Phases.{begin, begin_run}
use package_index.Suite.Concurrent.{
  start_worker, move_at, Fleet, move, after_move, begin_fleet, FleetSteps, starts, moves, here,
  next,
}
use package_index.Suite.Concurrent.Passes.{HasPassed}
use package_index.Suite.Concurrent.Whole.{FleetSteps-HasPassed}
use package_index.Suite.Concurrent.Liveness.Ending.{FleetSteps-finish}
use package_index.Suite.Run.Passed.{IsReady}
use package_index.Suite.WireFormat.{names_at}
use package_index.Base.Text.{codes}
use package_index.Tests.Phases.{packages, one, one_segment}
use package_index.Tests.Running.{always_zero}

abbrev pub at_start : Fleet Graph ℕ
at_start = begin_fleet 1 one [] 0

-- The goroutine is started, and has dialled.
abbrev pub started : Fleet Graph ℕ
started = record at_start {
  run = record at_start.run { pending = []; running = packages ∷ [] };
  workers = start_worker at_start.task packages ∷ [];
}

abbrev pub dialled : Fleet Graph ℕ
dialled = after_move [] [] started (
    move answer some (λ x. x) always_zero packages 5 started.task
      (start_worker at_start.task packages) ([], 0))

pub dialled-FleetSteps :
    FleetSteps answer some (λ x. x) always_zero packages 5 1 one at_start dialled
unfolding begin_fleet begin_run begin
dialled-FleetSteps =
    next (next here (starts at_start packages [] refl refl))
      (moves started [] (start_worker at_start.task packages) [] refl refl)

only_IsReady : IsReady packages packages (λ n. 0) (record { name = codes "a"; dependencies = [] })
unfolding names_at
only_IsReady = record {
  named = (λ e. ground (arith, e), (refl, tt));
  within = tt;
  deps = [];
  deps_at = refl;
  ranked = tt;
}

FleetSteps-HasPassed_example : (dialled.run.exit ≡ none) ⊎ HasPassed packages dialled
FleetSteps-HasPassed_example =
    FleetSteps-HasPassed always_zero (λ n r h. h) packages
      ((λ e. ground (arith, e), (refl, tt)), tt) (tt, tt) 5 1 one one_segment (omega arith)
      (omega arith) (omega arith) [] 0 dialled tt dialled-FleetSteps

-- The goroutine has dialled, and the run can go on to its end.
FleetSteps-finish_example :
    (f' : Fleet Graph ℕ) × FleetSteps answer some (λ x. x) always_zero packages 5 1 one dialled f'
    × HasPassed packages f'
unfolding begin_fleet begin_run begin after_move move move_at
FleetSteps-finish_example =
    FleetSteps-finish always_zero (λ n r h. h) packages (λ n. 0) 1 (only_IsReady, tt)
      (omega arith, tt) 5 1 one one_segment (omega arith) (omega arith) (omega arith) [] 0 dialled
      (record { ordered = tt; held = tt }) dialled-FleetSteps refl
